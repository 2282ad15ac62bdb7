-- ===== src/Interpreter/Calls/Retries.antt =====
-- How often a call is tried.
use julep.Prelude.{
  ℕ, zero, suc, ◌+◌, ◌-◌, ◌≤◌, ◌≡◌, refl, ◌∙◌, ◌⊎◌, inl, inr, Text, Bool, true, false, Bool-cases,
  leb, leb→le, sym, none, some, if◌then◌else◌, arith,
}
use julep.Ir.{CallStep, Node, info}
use julep.Interpreter.Env.{
  ok_injective, Fault, Reply, ok, raised, Run, ended, out_of_fuel, State, Eff, step, ◌>>=◌, lift,
  outside, Floats, Env,
}
use julep.Interpreter.Calls.{
  retry_attempts_for_call, retried, pause, after_attempt, attempts, call_tool,
}
use julep.Interpreter.Calls.Allowed.{Reply-cases, ok_raised, MayRepeat, attempts-cases}

module _ {V W : Type 0} (calls : W → ℕ) where
  -- At most `k` calls more.
  record Adds {A : Type 0} (k : ℕ) (m : Eff V W A) : Type 0 where
    most : (s : State V W) → calls (m s).1.world ≤ calls s.world + k

  step-Adds :
      {A B : Type 0} (j k n : ℕ) (x : Run A × State V W) (f : A → Eff V W B)
      → calls x.1.world ≤ n + j
      → ((a : A) → Adds k (f a))
      → calls (step x f).1.world ≤ n + (j + k)
  step-Adds j k n (ended (ok a), t) f h g = omega (arith, (g a).most t)
  step-Adds j k n (ended (raised e), t) f h g = omega arith
  step-Adds j k n (out_of_fuel, t) f h g = omega arith

  bind-Adds :
      {A B : Type 0} (j k : ℕ) (m : Eff V W A) (f : A → Eff V W B)
      → Adds j m
      → ((a : A) → Adds k (f a))
      → Adds (j + k) (m >>= f)
  unfolding ◌>>=◌
  bind-Adds j k m f h g = record { most = λ s. step-Adds j k (calls s.world) (m s) f (h.most s) g }

  free-Adds :
      {A B : Type 0} (k : ℕ) (m : Eff V W A) (f : A → Eff V W B)
      → Adds 0 m
      → ((a : A) → Adds k (f a))
      → Adds k (m >>= f)
  free-Adds k m f h g = record { most = λ s. omega (arith, (bind-Adds 0 k m f h g).most s) }

  lift-Adds : {A : Type 0} (r : Reply A) → Adds 0 (lift r)
  lift-Adds r = record { most = λ s. omega arith }

  -- A computation that calls nothing comes first.
  lift-bind-Adds :
      {A B : Type 0} (k : ℕ) (r : Reply A) (f : A → Eff V W B)
      → ((a : A) → r ≡ ok a → Adds k (f a))
      → Adds k (lift r >>= f)
  unfolding ◌>>=◌
  lift-bind-Adds k (ok a) f h = record { most = (h a refl).most }
  lift-bind-Adds k (raised e) f h = record { most = λ s. omega arith }

  if-Adds :
      {A : Type 0} (k : ℕ) (b : Bool) (m n : Eff V W A)
      → Adds k m
      → Adds k n
      → Adds k (if b then m else n)
  if-Adds k true m n h g = h
  if-Adds k false m n h g = g

  retry-most :
      (k : ℕ) (b : Bool) (m : Eff V W V) (e : Fault) (t : State V W)
      → Adds k m
      → calls (if b then m t else (ended (raised e), t)).1.world ≤ calls t.world + k
  retry-most k true m e t h = h.most t
  retry-most k false m e t h = omega arith

module _ {V W F : Type 0} (fl : Floats F) (env : Env V W F) (calls : W → ℕ)
    (called : (n : Node) (v : V) (cid : Text) (w : W)
      → calls (env.run_call n v cid w).1 ≡ suc (calls w))
    (slept : (x : F) (cid : Text) (w : W) → calls (env.sleep x cid w).1 ≡ calls w) where
  pause-Adds :
      (interval backoff : F) (cid : Text) → Adds calls 0 (pause env fl interval backoff cid)
  pause-Adds interval backoff cid =
      if-Adds calls 0 (fl.positive interval) _ _
        (free-Adds calls 0 _ _ (record { most = λ s. omega (arith, slept interval cid s.world) })
          (λ a. record { most = λ s. omega arith }))
        (record { most = λ s. omega arith })

  after_attempt-most :
      (n k : ℕ) (x : Run V × State V W) (m : Eff V W V)
      → calls x.1.world ≤ n + 1
      → Adds calls k m
      → calls (after_attempt env fl x (some m)).1.world ≤ n + suc k
  after_attempt-most n k (ended (ok v), t) m h g = omega arith
  after_attempt-most n k (out_of_fuel, t) m h g = omega arith
  after_attempt-most n k (ended (raised e), t) m h g =
      omega (arith, retry-most calls k (retried e) m e t g)

  last_attempt-most :
      (n : ℕ) (x : Run V × State V W)
      → calls x.1.world ≤ n + 1
      → calls (after_attempt env fl x none).1.world ≤ n + 1
  last_attempt-most n (ended (ok v), t) h = h
  last_attempt-most n (out_of_fuel, t) h = h
  last_attempt-most n (ended (raised e), t) h = h

  attempts-Adds :
      (more : ℕ) (interval backoff : F) (n : Node) (v : V) (cid : Text)
      → Adds calls (suc more) (attempts env fl more interval backoff n v cid)
  unfolding attempts
  attempts-Adds zero interval backoff n v cid = record {
    most = λ s.
        last_attempt-most (calls s.world) (outside (env.run_call n v cid) s)
          (omega (arith, called n v cid s.world));
  }
  attempts-Adds (suc more) interval backoff n v cid = record {
    most = λ s.
        after_attempt-most (calls s.world) (suc more) (outside (env.run_call n v cid) s) _
          (omega (arith, called n v cid s.world))
          (free-Adds calls (suc more) _ _ (pause-Adds interval backoff cid)
            (λ next. attempts-Adds more next backoff n v cid));
  }

  module _ (charged : (key : Text) (w : W) → calls (env.charge_call key w).1 ≡ calls w) where
    tried-Adds :
        (k : ℕ) (n : Node) (c : CallStep) (v : V) (cid : Text)
        → env.native_call_retries ≡ false
        → ((count : ℕ) → retry_attempts_for_call (info n).ann c env.manifest ≡ ok count → count ≤ k)
        → 1 ≤ k
        → Adds calls k (call_tool env fl n c v cid)
    unfolding call_tool
    tried-Adds k n c v cid own most one = lift-bind-Adds calls k _ _ λ key e.
        free-Adds calls k _ _ (record { most = λ s. omega (arith, charged key s.world) })
          λ u. rw own (
            lift-bind-Adds calls k _ _ λ count counted. lift-bind-Adds calls k _ _ λ interval i.
              lift-bind-Adds calls k _ _ λ backoff b. record {
                most = λ s. omega (
                  arith,
                  (attempts-Adds (count - 1) interval backoff n v cid).most s,
                  most count counted,
                );
              })

    -- A call is sent to its tool once at most, unless its frozen contract was asserted by a trusted
    -- authority and allows a retry, and then at most as often as its annotation says. The environment
    -- leaves retries to the interpreter, counts each call that it runs once, and counts nothing for a
    -- sleep or a charge.
    pub calls_bounded :
        (n : Node) (c : CallStep) (v : V) (cid : Text) (s : State V W)
        → env.native_call_retries ≡ false
        → (calls (call_tool env fl n c v cid s).1.world ≤ calls s.world + 1)
          ⊎ ((k : ℕ) × MayRepeat (info n).ann c env.manifest k
              × (calls (call_tool env fl n c v cid s).1.world ≤ calls s.world + k))
    calls_bounded n c v cid s own =
        elim (Reply-cases (retry_attempts_for_call (info n).ann c env.manifest)) [
          | inr (e, fails) ↦ inl (
              (tried-Adds 1 n c v cid own (λ count q. absurd (ok_raised (sym q ∙ fails)))
                  (omega arith)).most
                s)
          | inl (count, is) ↦ elim (attempts-cases (info n).ann c env.manifest count is) [
            | inl small ↦ inl (
                (tried-Adds 1 n c v cid own (λ x q. omega (arith, small, ok_injective (sym q ∙ is)))
                    (omega arith)).most
                  s)
            | inr (k, may, le) ↦ elim (Bool-cases (leb k 0)) [
              | inl none_asked ↦ inl (
                  (tried-Adds 1 n c v cid own
                      (λ x q. omega (arith, le, leb→le k 0 none_asked, ok_injective (sym q ∙ is)))
                      (omega arith)).most
                    s)
              | inr asked ↦ inr (
                k,
                may,
                (tried-Adds k n c v cid own (λ x q. omega (arith, le, ok_injective (sym q ∙ is)))
                      (ground arith)).most
                    s,
              )
            ]
          ]
        ]
