-- ===== src/Resilience/Policy.antt =====
-- `ResiliencePolicy` of julep/resilience.py: the fallback chain of a model, and the attempts on one
-- model. The backoff, which is arithmetic on floats, is left out.
pub mod Candidates
use julep.Prelude.{
  Text, text_eq, has_text, get, or_else, ℤ, pos, max_ℤ, Option, List, [], ◌∷◌, ◌++◌, if◌then◌else◌,
}
use julep.Resilience.Errors.{ErrorClass, transient, timeout, config, model_behavior}

pub record ResiliencePolicy : Type 0 where
  pub fallbacks : List (Text × List Text)
  pub transient_attempts : ℤ
  pub timeout_attempts : ℤ

-- The loop over the candidates, which adds those that are new to `out`.
unfoldable pub add_new : List Text → List Text → List Text
unfolding has_text
add_new [] out = out
add_new (c ∷ cs) out = if has_text c out then add_new cs out else add_new cs (out ++ (c ∷ []))

-- The primary model, then its fallbacks, without repetitions.
unfoldable pub candidates : ResiliencePolicy → Text → List Text
unfolding add_new get
candidates p model = add_new (model ∷ or_else (get model p.fallbacks) []) []

-- The attempts on one model for a class of error.
unfoldable pub attempts_for : ResiliencePolicy → ErrorClass → ℤ
attempts_for p transient = max_ℤ (pos 1) p.transient_attempts
attempts_for p timeout = max_ℤ (pos 1) p.timeout_attempts
attempts_for p _ = pos 1
