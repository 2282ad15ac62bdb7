-- ===== src/Samples/Models.antt =====
-- A fallback chain that names a model twice.
use julep.Prelude.{◌≡◌, refl, Text, text, text_eq, has_text, get, or_else, pos, List, [], ◌∷◌}
use julep.Resilience.Policy.{ResiliencePolicy, candidates}
use julep.Resilience.Policy.Candidates.{Distinct, candidates_exact}

abbrev pub policy : ResiliencePolicy
policy = record {
  fallbacks = (text "a", text "b" ∷ text "a" ∷ text "c" ∷ []) ∷ [];
  transient_attempts = pos 2;
  timeout_attempts = pos 1;
}

chain_of_a : candidates policy (text "a") ≡ text "a" ∷ text "b" ∷ text "c" ∷ []
unfolding candidates text_eq
chain_of_a = refl

candidates_exact_example :
    ((rest : List Text) × (candidates policy (text "a") ≡ text "a" ∷ rest))
    × Distinct (candidates policy (text "a"))
    × ((t : Text)
        → has_text t (candidates policy (text "a"))
          ≡ has_text t (text "a" ∷ or_else (get (text "a") policy.fallbacks) []))
candidates_exact_example = candidates_exact policy (text "a")
