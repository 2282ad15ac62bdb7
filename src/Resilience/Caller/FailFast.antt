-- ===== src/Resilience/Caller/FailFast.antt =====
-- The walk of the fallback chain of julep/execution/llm.py: its end, its calls and its log.
use julep.Prelude.{
  ℕ, ◌*◌, ◌≤◌, ◌≡◌, ◌⊎◌, inl, inr, refl, Text, Bool, Option, some, List, [], ◌∷◌, length,
  Bool-cases, arith,
}
use julep.Resilience.Breaker.{CircuitBreaker}
use julep.Resilience.Policy.{ResiliencePolicy, candidates}
use julep.Resilience.Caller.{
  Answer, skipped_open_circuit, AttemptRecord, Walk, End, served, raised, advance, most_attempts,
  noted, allowed, candidate, walk_chain, caller,
}
use julep.Resilience.Caller.Attempts.{
  NoConfig, most_positive, Ends, allowed-Same, noted-NoConfig, try-Ends,
}

no_raise : (l : List AttemptRecord) → (advance ≡ raised) ⊎ NoConfig l → NoConfig l
no_raise l (inl e) = cc
no_raise l (inr h) = h

module _ (policy : ResiliencePolicy) (has_schema : Bool) (provider_of : Text → Text)
    (answers : ℕ → Answer) (clock : ℕ → ℕ) where
  candidate-Ends :
      (model : Text) (w : Walk)
      → NoConfig w.attempts
      → Ends policy has_schema provider_of answers clock w
          (most_attempts policy)
          (candidate policy has_schema provider_of answers clock model w)
  unfolding candidate
  candidate-Ends model w h =
      let x = allowed-Same policy has_schema provider_of answers clock model w in
      let v = (allowed policy has_schema provider_of answers clock model w).1 in
      elim (Bool-cases (allowed policy has_schema provider_of answers clock model w).0) [
        | inl e ↦
            let r =
              try-Ends policy has_schema provider_of answers clock (most_attempts policy) model 0 v
                (most_positive policy) (omega arith) (rw x.log h) in
            record {
              how = r.how;
              after = r.after;
              returns = rw (candidate, e) r.returns;
              clean = r.clean;
              few = omega (arith, r.few, x.count);
            }
        | inr e ↦ record {
          how = advance;
          after = noted policy has_schema provider_of answers clock model skipped_open_circuit v;
          returns = rw (candidate, e) refl;
          clean = inr (
              noted-NoConfig policy has_schema provider_of answers clock model skipped_open_circuit
                v refl (rw x.log h));
          few = omega (arith, x.count);
        }
      ]

  chain-Ends :
      (models : List Text) (w : Walk)
      → NoConfig w.attempts
      → Ends policy has_schema provider_of answers clock w
          (length models * most_attempts policy)
          (walk_chain policy has_schema provider_of answers clock models w)
  unfolding walk_chain
  chain-Ends [] w h = record {
    how = advance;
    after = w;
    returns = refl;
    clean = inr h;
    few = omega arith;
  }
  chain-Ends (model ∷ rest) w h =
      let r = candidate-Ends model w h in by_end r.how r refl (λ v k. chain-Ends rest v k)
    where
      by_end :
          (e : End)
          (r : Ends policy has_schema provider_of answers clock w
            (most_attempts policy)
            (candidate policy has_schema provider_of answers clock model w))
          → r.how ≡ e
          → ((v : Walk)
              → NoConfig v.attempts
              → Ends policy has_schema provider_of answers clock v
                  (length rest * most_attempts policy)
                  (walk_chain policy has_schema provider_of answers clock rest v))
          → Ends policy has_schema provider_of answers clock w
              (length (model ∷ rest) * most_attempts policy)
              (walk_chain policy has_schema provider_of answers clock (model ∷ rest) w)
      by_end served r e k = record {
        how = served;
        after = r.after;
        returns = rw (walk_chain, r.returns, e) refl;
        clean = rw e at r.clean;
        few = grind (arith, r.few);
      }
      by_end raised r e k = record {
        how = raised;
        after = r.after;
        returns = rw (walk_chain, r.returns, e) refl;
        clean = inl refl;
        few = grind (arith, r.few);
      }
      by_end advance r e k =
          let s = k r.after (no_raise r.after.attempts (rw e at r.clean)) in
          record {
            how = s.how;
            after = s.after;
            returns = rw (walk_chain, r.returns, e) s.returns;
            clean = s.clean;
            few = grind (arith, r.few, s.few);
          }

  -- The caller ends, after at most as many calls of a model as there are candidates times the
  -- largest attempt budget; and it re-raises an error, or no attempt in its log ended in a
  -- configuration error, so that none is masked by a fallback.
  pub config_fails_fast :
      (model : Text) (breaker : Option CircuitBreaker)
      → (e : End) × (w : Walk) × (caller policy has_schema provider_of answers clock model breaker
          ≡ some (e, w))
        × ((e ≡ raised) ⊎ NoConfig w.attempts)
        × (w.calls ≤ length (candidates policy model) * most_attempts policy)
  unfolding caller
  config_fails_fast model breaker =
      let r =
        chain-Ends (candidates policy model)
          (record { calls = 0; reads = 0; breaker = breaker; attempts = [] }) tt in
      (r.how, r.after, r.returns, r.clean, omega (arith, r.few))
