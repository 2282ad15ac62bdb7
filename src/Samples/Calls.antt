-- ===== src/Samples/Calls.antt =====
-- A chain of two models: the first times out, and the second answers.
use julep.Prelude.{◌≡◌, refl, ◌⊎◌, ◌≤◌, ◌*◌, ℕ, zero, suc, text, true, false, none, some, length}
use julep.Resilience.Errors.{timeout}
use julep.Resilience.Policy.{candidates}
use julep.Resilience.Caller.{
  Answer, replied, failed, Walk, End, raised, most_attempts, caller, split_model,
}
use julep.Resilience.Caller.Attempts.{NoConfig}
use julep.Resilience.Caller.FailFast.{config_fails_fast}
use julep.Samples.Models.{policy}

provider_slug : split_model (text "anthropic") (text "openai:a") ≡ text "openai"
unfolding split_model
provider_slug = refl

abbrev answers : ℕ → Answer
answers zero = failed timeout
answers (suc n) = replied true

abbrev clock : ℕ → ℕ
clock n = n

config_fails_fast_example :
    (e : End) × (w : Walk) × (caller policy false
        (split_model (text "anthropic"))
        answers
        clock
        (text "a")
        none
      ≡ some (e, w))
    × ((e ≡ raised) ⊎ NoConfig w.attempts)
    × (w.calls ≤ length (candidates policy (text "a")) * most_attempts policy)
config_fails_fast_example =
    config_fails_fast policy false (split_model (text "anthropic")) answers clock (text "a") none
