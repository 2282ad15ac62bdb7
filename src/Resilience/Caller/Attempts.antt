-- ===== src/Resilience/Caller/Attempts.antt =====
-- The attempts on one candidate of julep/execution/llm.py, and the calls that they make.
use julep.Prelude.{
  ℕ, zero, suc, ◌+◌, ◌≤◌, ◌<◌, ◌≡◌, ◌⊎◌, inl, inr, refl, Text, Bool, true, false, not, ◌&&◌, pos,
  ltb_ℤ, Option, some, List, All, All-append, Bool-cases, Option-cases, arith,
}
use julep.Resilience.Errors.{ErrorClass, transient, timeout, config, model_behavior}
use julep.Resilience.Policy.{ResiliencePolicy, attempts_for}
use julep.Resilience.Caller.{
  Answer, replied, refused, misbehaved, failed, Outcome, ok, went_wrong, AttemptRecord, Walk, End,
  served, raised, advance, most_attempts, noted, called, allowed, failure_noted, success_noted,
  settled, retries, try_candidate,
}

abbrev pub is_config : Outcome → Bool
is_config (went_wrong config) = true
is_config _ = false

-- No attempt in the log ended in a configuration error.
abbrev pub NoConfig : List AttemptRecord → Type 0
NoConfig log = All (λ a. is_config a.outcome ≡ false) log

attempts_bound :
    (p : ResiliencePolicy) (c : ErrorClass) (a : ℕ)
    → ltb_ℤ (pos a) (attempts_for p c) ≡ true
    → a < most_attempts p
unfolding attempts_for
attempts_bound p transient a h = ground (arith, h)
attempts_bound p timeout a h = ground (arith, h)
attempts_bound p config a h = ground (arith, h)
attempts_bound p model_behavior a h = ground (arith, h)

pub most_positive : (p : ResiliencePolicy) → 0 < most_attempts p
most_positive p = ground arith

module _ (policy : ResiliencePolicy) (has_schema : Bool) (provider_of : Text → Text)
    (answers : ℕ → Answer) (clock : ℕ → ℕ) where
  -- An end of a walk that made at most `n` more calls.
  pub record Ends (w : Walk) (n : ℕ) (r : Option (End × Walk)) : Type 0 where
    pub how : End
    pub after : Walk
    pub returns : r ≡ some (how, after)
    pub clean : (how ≡ raised) ⊎ NoConfig after.attempts
    pub few : after.calls ≤ w.calls + n

  -- Steps on the breaker leave the log and the calls.
  pub record Same (w v : Walk) : Type 0 where
    pub log : v.attempts ≡ w.attempts
    pub count : v.calls ≡ w.calls

  pub allowed-Same :
      (model : Text) (w : Walk)
      → Same w (allowed policy has_schema provider_of answers clock model w).1
  allowed-Same model w = elim (Option-cases w.breaker) [
    | inl e ↦ record { log = rw e refl; count = rw e refl }
    | inr (b, e) ↦ record { log = rw e refl; count = rw e refl }
  ]

  failure_noted-Same :
      (model : Text) (w : Walk)
      → Same w (failure_noted policy has_schema provider_of answers clock model w)
  failure_noted-Same model w = elim (Option-cases w.breaker) [
    | inl e ↦ record { log = rw e refl; count = rw e refl }
    | inr (b, e) ↦ record { log = rw e refl; count = rw e refl }
  ]

  success_noted-Same :
      (model : Text) (w : Walk)
      → Same w (success_noted policy has_schema provider_of answers clock model w)
  success_noted-Same model w = elim (Option-cases w.breaker) [
    | inl e ↦ record { log = rw e refl; count = rw e refl }
    | inr (b, e) ↦ record { log = rw e refl; count = rw e refl }
  ]

  retries-Same :
      (model : Text) (a : ℕ) (c : ErrorClass) (w : Walk)
      → Same w (retries policy has_schema provider_of answers clock model a c w).1
  retries-Same model a c w = elim (Bool-cases (ltb_ℤ (pos a) (attempts_for policy c))) [
    | inl e ↦ rw e (allowed-Same model w)
    | inr e ↦ rw e (record { log = refl; count = refl })
  ]

  retries_bound :
      (model : Text) (a : ℕ) (c : ErrorClass) (w : Walk)
      → (retries policy has_schema provider_of answers clock model a c w).0 ≡ true
      → a < most_attempts policy
  retries_bound model a c w h = elim (Bool-cases (ltb_ℤ (pos a) (attempts_for policy c))) [
    | inl e ↦ attempts_bound policy c a e
    | inr e ↦ cc (rw e at h)
  ]

  pub noted-NoConfig :
      (model : Text) (o : Outcome) (w : Walk)
      → is_config o ≡ false
      → NoConfig w.attempts
      → NoConfig (noted policy has_schema provider_of answers clock model o w).attempts
  noted-NoConfig model o w e h = All-append _ w.attempts _ h (e, tt)

  module _ (f : ℕ) (model : Text) (a : ℕ) (w : Walk) (clean : NoConfig w.attempts)
      (again_Ends : (v : Walk)
        → suc a < most_attempts policy
        → NoConfig v.attempts
        → Ends v f
            (try_candidate policy has_schema provider_of answers clock f model (suc a) v)) where
    abbrev logged : ErrorClass → Walk
    logged c =
        noted policy has_schema provider_of answers clock model (went_wrong c)
          (called policy has_schema provider_of answers clock w)

    abbrev lost : ErrorClass → Walk
    lost c = failure_noted policy has_schema provider_of answers clock model (logged c)

    abbrev retried : ErrorClass → Bool × Walk
    retried c = retries policy has_schema provider_of answers clock model (suc a) c (lost c)

    abbrev verdict : ErrorClass → Option (End × Walk)
    verdict c = elim (retried c).0 [
      | true ↦
          try_candidate policy has_schema provider_of answers clock f model (suc a) (retried c).1
      | false ↦ some (advance, (retried c).1)
    ]

    retried-NoConfig :
        (c : ErrorClass) → is_config (went_wrong c) ≡ false → NoConfig (retried c).1.attempts
    retried-NoConfig c e =
        let x = retries-Same model (suc a) c (lost c) in
        let y = failure_noted-Same model (logged c) in
        rw (x.log, y.log)
          (noted-NoConfig model (went_wrong c)
            (called policy has_schema provider_of answers clock w) e clean)

    retried_calls : (c : ErrorClass) → (retried c).1.calls ≡ suc w.calls
    retried_calls c =
        let x = retries-Same model (suc a) c (lost c) in
        let y = failure_noted-Same model (logged c) in rw (x.count, y.count) refl

    failed-Ends : (c : ErrorClass) → is_config (went_wrong c) ≡ false → Ends w (suc f) (verdict c)
    failed-Ends c e = elim (Bool-cases (retried c).0) [
      | inl q ↦
          let r =
            again_Ends (retried c).1 (retries_bound model (suc a) c (lost c) q)
              (retried-NoConfig c e) in
          record {
            how = r.how;
            after = r.after;
            returns = rw (verdict, q) r.returns;
            clean = r.clean;
            few = omega (arith, r.few, retried_calls c);
          }
      | inr q ↦ record {
        how = advance;
        after = (retried c).1;
        returns = rw (verdict, q) refl;
        clean = inr (retried-NoConfig c e);
        few = omega (arith, retried_calls c);
      }
    ]

    abbrev pleased : Walk
    pleased =
        success_noted policy has_schema provider_of answers clock model
          (called policy has_schema provider_of answers clock w)

    settled-Ends :
        (is_object : Bool)
        → Ends w
            (suc f)
            (some (settled policy has_schema provider_of answers clock model is_object pleased))
    settled-Ends is_object =
        let x = success_noted-Same model (called policy has_schema provider_of answers clock w) in
        elim (Bool-cases (has_schema && not is_object)) [
          | inl e ↦ record {
            how = advance;
            after =
                noted policy has_schema provider_of answers clock model (went_wrong model_behavior)
                  pleased;
            returns = rw e refl;
            clean =
                inr
                  (noted-NoConfig model (went_wrong model_behavior) pleased refl (rw x.log clean));
            few = omega (arith, x.count);
          }
          | inr e ↦ record {
            how = served;
            after = noted policy has_schema provider_of answers clock model ok pleased;
            returns = rw e refl;
            clean = inr (noted-NoConfig model ok pleased refl (rw x.log clean));
            few = omega (arith, x.count);
          }
        ]

    by_answer :
        (x : Answer)
        → answers w.calls ≡ x
        → Ends w
            (suc f)
            (try_candidate policy has_schema provider_of answers clock (suc f) model a w)
    unfolding try_candidate
    by_answer refused e = record {
      how = raised;
      after = logged model_behavior;
      returns = rw (try_candidate, e) refl;
      clean = inl refl;
      few = omega arith;
    }
    by_answer misbehaved e = record {
      how = advance;
      after = logged model_behavior;
      returns = rw (try_candidate, e) refl;
      clean = inr (
          noted-NoConfig model (went_wrong model_behavior)
            (called policy has_schema provider_of answers clock w) refl clean);
      few = omega arith;
    }
    by_answer (replied is_object) e = rw (try_candidate, e) (settled-Ends is_object)
    by_answer (failed config) e = record {
      how = raised;
      after = logged config;
      returns = rw (try_candidate, e) refl;
      clean = inl refl;
      few = omega arith;
    }
    by_answer (failed transient) e = rw (try_candidate, e) (failed-Ends transient refl)
    by_answer (failed timeout) e = rw (try_candidate, e) (failed-Ends timeout refl)
    by_answer (failed model_behavior) e = rw (try_candidate, e) (failed-Ends model_behavior refl)

  pub try-Ends :
      (f : ℕ) (model : Text) (a : ℕ) (w : Walk)
      → a < most_attempts policy
      → most_attempts policy ≤ a + f
      → NoConfig w.attempts
      → Ends w f (try_candidate policy has_schema provider_of answers clock f model a w)
  try-Ends zero model a w l g h = absurd (omega arith)
  try-Ends (suc f) model a w l g h =
      by_answer f model a w h (λ v l2 h2. try-Ends f model (suc a) v l2 (omega arith) h2)
        (answers w.calls) refl
