-- ===== src/Samples/OneByOne.antt =====
-- An environment that runs branches one after another, and stops a race at its first success.
use julep.Prelude.{ℕ, List, [], ◌∷◌, All}
use julep.Interpreter.Env.{
  framework, ok, raised, Run, ended, out_of_fuel, State, Eff, step, ◌>>=◌, done, throw, Concurrency,
}
use julep.Interpreter.Order.{InOrder}
use julep.Interpreter.Eval.Keeps.{Finished}

module _ {V W : Type 0} where
  unfoldable pub all_of : List (Eff V W (V × ℕ)) → Eff V W (List (V × ℕ))
  all_of [] = done []
  all_of (m ∷ ms) = do r ← m; rs ← all_of ms; done (r ∷ rs)

  abbrev pub or_next :
      Run (V × ℕ) × State V W → Eff V W (List (V × ℕ)) → Run (List (V × ℕ)) × State V W
  or_next (ended (ok r), s) more = (ended (ok (r ∷ [])), s)
  or_next (ended (raised e), s) more = more s
  or_next (out_of_fuel, s) more = (out_of_fuel, s)

  unfoldable pub first_of : List (Eff V W (V × ℕ)) → Eff V W (List (V × ℕ))
  first_of [] s = throw framework s
  first_of (m ∷ ms) s = or_next (m s) (first_of ms)

  abbrev pub one_by_one : Concurrency V W
  unfolding all_of first_of
  one_by_one = record { gather = all_of; race_first = λ kind m hedge_ms ms. first_of ms }

  module _ (R : State V W → State V W → Type 0) (r : (s : State V W) → R s s)
      (t : (s u v : State V W) → R s u → R u v → R s v) where
    step-runs :
        {A B : Type 0} (s : State V W) (x : Run A × State V W) (f : A → Eff V W B)
        → (Finished x.0 → R s x.1)
        → ((a : A) (u : State V W) → Finished (f a u).0 → R u (f a u).1)
        → Finished (step x f).0
        → R s (step x f).1
    step-runs s (ended (ok a), u) f h k e = t s u (f a u).1 (h tt) (k a u e)
    step-runs s (ended (raised g), u) f h k e = h tt
    step-runs s (out_of_fuel, u) f h k e = absurd e

    all_of-runs :
        (ms : List (Eff V W (V × ℕ)))
        → All (λ m. (s : State V W) → Finished (m s).0 → R s (m s).1) ms
        → (s : State V W) → Finished (all_of ms s).0
        → R s (all_of ms s).1
    unfolding all_of ◌>>=◌
    all_of-runs [] h s e = r s
    all_of-runs (m ∷ ms) h s e =
        step-runs s (m s) _ (h.0 s)
          (λ a u. step-runs u (all_of ms u) _ (all_of-runs ms h.1 u) (λ rs v d. r v)) e

    or_next-runs :
        (s : State V W) (x : Run (V × ℕ) × State V W) (more : Eff V W (List (V × ℕ)))
        → (Finished x.0 → R s x.1)
        → ((u : State V W) → Finished (more u).0 → R u (more u).1)
        → Finished (or_next x more).0
        → R s (or_next x more).1
    or_next-runs s (ended (ok a), u) more h k e = h tt
    or_next-runs s (ended (raised g), u) more h k e = t s u (more u).1 (h tt) (k u e)
    or_next-runs s (out_of_fuel, u) more h k e = absurd e

    first_of-runs :
        (ms : List (Eff V W (V × ℕ)))
        → All (λ m. (s : State V W) → Finished (m s).0 → R s (m s).1) ms
        → (s : State V W) → Finished (first_of ms s).0
        → R s (first_of ms s).1
    unfolding first_of
    first_of-runs [] h s e = r s
    first_of-runs (m ∷ ms) h s e =
        or_next-runs s (m s) (first_of ms) (h.0 s) (first_of-runs ms h.1) e

  step-finishes :
      {A B : Type 0} (x : Run A × State V W) (f : A → Eff V W B)
      → Finished x.0
      → ((a : A) (u : State V W) → Finished (f a u).0)
      → Finished (step x f).0
  step-finishes (ended (ok a), u) f h k = k a u
  step-finishes (ended (raised g), u) f h k = tt
  step-finishes (out_of_fuel, u) f h k = h

  all_of-finishes :
      (ms : List (Eff V W (V × ℕ)))
      → All (λ m. (s : State V W) → Finished (m s).0) ms
      → (s : State V W) → Finished (all_of ms s).0
  unfolding all_of ◌>>=◌
  all_of-finishes [] h s = tt
  all_of-finishes (m ∷ ms) h s =
      step-finishes (m s) _ (h.0 s)
        (λ a u. step-finishes (all_of ms u) _ (all_of-finishes ms h.1 u) (λ rs v. tt))

  or_next-finishes :
      (x : Run (V × ℕ) × State V W) (more : Eff V W (List (V × ℕ)))
      → Finished x.0
      → ((u : State V W) → Finished (more u).0)
      → Finished (or_next x more).0
  or_next-finishes (ended (ok a), u) more h k = tt
  or_next-finishes (ended (raised g), u) more h k = k u
  or_next-finishes (out_of_fuel, u) more h k = h

  first_of-finishes :
      (ms : List (Eff V W (V × ℕ)))
      → All (λ m. (s : State V W) → Finished (m s).0) ms
      → (s : State V W) → Finished (first_of ms s).0
  unfolding first_of
  first_of-finishes [] h s = tt
  first_of-finishes (m ∷ ms) h s =
      or_next-finishes (m s) (first_of ms) (h.0 s) (first_of-finishes ms h.1)

  pub one_by_one-InOrder : InOrder one_by_one
  unfolding one_by_one
  one_by_one-InOrder = record {
    gather_runs = all_of-runs;
    race_runs = λ R r t kind m hedge_ms. first_of-runs R r t;
    gather_finishes = all_of-finishes;
    race_finishes = λ kind m hedge_ms. first_of-finishes;
  }
