-- ===== src/Resilience/Caller.antt =====
-- `make_resilient_llm_caller` of julep/execution/llm.py: the walk of the fallback chain around the
-- calls of a model. What the calls answer, and the clock, are sequences; the result's metadata and
-- the sleeps between attempts are left out.
pub mod Attempts
pub mod FailFast
use julep.Prelude.{
  ◌==◌, or_else, ℕ, zero, suc, ◌+◌, Text, Bool, true, false, not, ◌&&◌, ℤ, pos, pos_part, max_ℤ,
  ltb_ℤ, Option, none, some, List, [], ◌∷◌, ◌++◌, if◌then◌else◌,
}
use julep.Resilience.Breaker.{CircuitBreaker, allow, record_success, record_failure}
use julep.Resilience.Errors.{ErrorClass, transient, timeout, config, model_behavior}
use julep.Resilience.Policy.{ResiliencePolicy, candidates, attempts_for}

-- What one `complete_reasoner` does: a reply, which may be a JSON object; the two errors with a
-- handler of their own; or another exception, by the verdict of `classifier` on it.
pub data Answer : Type 0 where
  replied : (is_object : Bool) → Answer
  refused misbehaved : Answer
  failed : ErrorClass → Answer

-- The `outcome` of an attempt.
pub data Outcome : Type 0 where
  ok skipped_open_circuit : Outcome
  went_wrong : ErrorClass → Outcome

pub record AttemptRecord : Type 0 where
  pub model : Text
  pub provider : Text
  pub outcome : Outcome

-- The state of a walk: the calls made, the clock reads made, the breaker and the attempt log.
pub record Walk : Type 0 where
  pub calls : ℕ
  pub reads : ℕ
  pub breaker : Option CircuitBreaker
  pub attempts : List AttemptRecord

-- How the attempts on one candidate end; `advance` goes on to the next.
pub data End : Type 0 where
  served raised advance : End

abbrev with_head : ℕ → Option Text → Option Text
with_head c none = none
with_head c (some t) = some (c ∷ t)

-- `model.partition(":")`: what stands before the first colon, if there is one.
unfoldable pub before_colon : Text → Option Text
before_colon [] = none
before_colon (c ∷ t) = let rest = before_colon t in if c == 58 then some [] else with_head c rest

-- The provider of a model, with the default of a bare slug.
unfoldable pub split_model : (default : Text) → Text → Text
unfolding before_colon
split_model default model = or_else (before_colon model) default

-- The largest attempt budget, which is enough fuel for one candidate.
abbrev pub most_attempts : ResiliencePolicy → ℕ
most_attempts p = pos_part (max_ℤ (max_ℤ (pos 1) p.transient_attempts) p.timeout_attempts)

-- `provider_of` is the provider of `split_model` with the default of the caller.
module _ (policy : ResiliencePolicy) (has_schema : Bool) (provider_of : Text → Text)
    (answers : ℕ → Answer) (clock : ℕ → ℕ) where
  abbrev pub answer : Walk → Answer
  answer w = answers w.calls

  abbrev pub now : Walk → ℕ
  now w = clock w.reads

  abbrev pub noted : Text → Outcome → Walk → Walk
  noted model o w = record w {
    attempts =
        w.attempts ++ (record { model = model; provider = provider_of model; outcome = o } ∷ []);
  }

  abbrev pub called : Walk → Walk
  called w = record w { calls = suc w.calls }

  -- `breaker is None or breaker.allow(provider)`
  abbrev pub allowed : Text → Walk → Bool × Walk
  allowed model w = elim w.breaker [
    | none ↦ (true, w)
    | some b ↦
        let (granted, b2) = allow (now w) b (provider_of model) in
        (granted, record w { breaker = some b2; reads = suc w.reads })
  ]

  abbrev pub failure_noted : Text → Walk → Walk
  failure_noted model w = elim w.breaker [
    | none ↦ w
    | some b ↦ record w {
      breaker = some (record_failure (now w) b (provider_of model));
      reads = suc w.reads;
    }
  ]

  abbrev pub success_noted : Text → Walk → Walk
  success_noted model w = elim w.breaker [
    | none ↦ w
    | some b ↦ record w { breaker = some (record_success b (provider_of model)) }
  ]

  -- After a reply.
  abbrev pub settled : Text → Bool → Walk → End × Walk
  settled model is_object w =
      if has_schema && not is_object
      then (advance, noted model (went_wrong model_behavior) w)
      else (served, noted model ok w)

  -- After a failure that is no configuration error: whether the same model is tried again.
  abbrev pub retries : Text → (attempt : ℕ) → ErrorClass → Walk → Bool × Walk
  retries model attempt c w =
      if ltb_ℤ (pos attempt) (attempts_for policy c) then allowed model w else (false, w)

  -- The loop of one candidate. Out of fuel is `none`.
  unfoldable pub try_candidate : ℕ → Text → (attempt : ℕ) → Walk → Option (End × Walk)
  unfolding attempts_for allow record_failure record_success
  try_candidate zero model attempt w = none
  try_candidate (suc f) model attempt w = elim (answer w) [
    | refused ↦ some (raised, noted model (went_wrong model_behavior) (called w))
    | misbehaved ↦ some (advance, noted model (went_wrong model_behavior) (called w))
    | replied is_object ↦ some (settled model is_object (success_noted model (called w)))
    | failed config ↦ some (raised, noted model (went_wrong config) (called w))
    | failed c ↦
        let (again, w2) =
          retries model (suc attempt) c
            (failure_noted model (noted model (went_wrong c) (called w))) in
        elim again [ true ↦ try_candidate f model (suc attempt) w2 | false ↦ some (advance, w2) ]
  ]

  -- One candidate, which an open circuit skips.
  unfoldable pub candidate : Text → Walk → Option (End × Walk)
  unfolding try_candidate
  candidate model w =
      let (granted, w2) = allowed model w in
      elim granted [
        | true ↦ try_candidate (most_attempts policy) model 0 w2
        | false ↦ some (advance, noted model skipped_open_circuit w2)
      ]

  -- The candidates in order. At the end of the chain, `ResilienceExhausted` is raised.
  unfoldable pub walk_chain : List Text → Walk → Option (End × Walk)
  unfolding candidate
  walk_chain [] w = some (advance, w)
  walk_chain (model ∷ rest) w = elim (candidate model w) [
    | some (advance, w2) ↦ walk_chain rest w2
    | some (served, w2) ↦ some (served, w2)
    | some (raised, w2) ↦ some (raised, w2)
    | none ↦ none
  ]

  -- `caller`, for a model asked for: `advance` says that the chain is exhausted.
  unfoldable pub caller : Text → Option CircuitBreaker → Option (End × Walk)
  unfolding walk_chain candidates
  caller model breaker =
      walk_chain (candidates policy model)
        (record { calls = 0; reads = 0; breaker = breaker; attempts = [] })
