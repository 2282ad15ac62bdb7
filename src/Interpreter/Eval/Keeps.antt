-- ===== src/Interpreter/Eval/Keeps.antt =====
-- What a computation of the interpreter leaves of the projection.
use julep.Prelude.{
  ◌≡◌, refl, ◌∙◌, Bool, true, false, Option, none, some, if◌then◌else◌, Result, return, raise,
}
use julep.Interpreter.Env.{
  Fault, Reply, Run, ended, ok, raised, out_of_fuel, State, Eff, step, ◌>>=◌, done, throw, lift,
  from_result, required, outside,
}
use julep.Projection.Paired.{Below, Extends, Extends-refl, Extends-Below, Extends-trans}

-- It returned a value or raised an exception.
abbrev pub Finished : {A : Type 0} → Run A → Type 0
Finished (ended r) = Unit
Finished out_of_fuel = ⊥

module _ {V W : Type 0} where
  -- The projection of the second state extends that of the first by paired activations.
  abbrev pub Grows : State V W → State V W → Type 0
  Grows s s' = Below s.emitter → Extends s.emitter s'.emitter

  pub record Keeps {A : Type 0} (m : Eff V W A) : Type 0 where
    pub grows : (s : State V W) → Finished (m s).0 → Grows s (m s).1

  -- It ends, and records nothing.
  pub record Quiet {A : Type 0} (m : Eff V W A) : Type 0 where
    pub same : (s : State V W) → (m s).1.emitter ≡ s.emitter
    pub ends : (s : State V W) → Finished (m s).0

  pub Grows-refl : (s : State V W) → Grows s s
  Grows-refl s b = Extends-refl s.emitter

  pub Grows-trans : (s t u : State V W) → Grows s t → Grows t u → Grows s u
  Grows-trans s t u g h b = let x = g b in Extends-trans x (h (Extends-Below b x))

  pub Quiet-Keeps : {A : Type 0} (m : Eff V W A) → Quiet m → Keeps m
  Quiet-Keeps m q = record { grows = λ s f b. rw (q.same s) (Extends-refl s.emitter) }

  step-Keeps :
      {A B : Type 0} (s : State V W) (x : Run A × State V W) (f : A → Eff V W B)
      → (Finished x.0 → Grows s x.1)
      → ((a : A) → Keeps (f a))
      → Finished (step x f).0
      → Grows s (step x f).1
  step-Keeps s (ended (ok a), t) f h k e = Grows-trans s t (f a t).1 (h tt) ((k a).grows t e)
  step-Keeps s (ended (raised e), t) f h k d = h tt
  step-Keeps s (out_of_fuel, t) f h k d = absurd d

  pub bind-Keeps :
      {A B : Type 0} (m : Eff V W A) (f : A → Eff V W B)
      → Keeps m
      → ((a : A) → Keeps (f a))
      → Keeps (m >>= f)
  unfolding ◌>>=◌
  bind-Keeps m f h k = record { grows = λ s. step-Keeps s (m s) f (h.grows s) k }

  -- A quiet computation, and then one that keeps the projection.
  pub then-Keeps :
      {A B : Type 0} (m : Eff V W A) (f : A → Eff V W B)
      → Quiet m
      → ((a : A) → Keeps (f a))
      → Keeps (m >>= f)
  then-Keeps m f q k = bind-Keeps m f (Quiet-Keeps m q) k

  step-Quiet :
      {A B : Type 0} (s : State V W) (x : Run A × State V W) (f : A → Eff V W B)
      → x.1.emitter ≡ s.emitter
      → ((a : A) → Quiet (f a))
      → (step x f).1.emitter ≡ s.emitter
  step-Quiet s (ended (ok a), t) f h k = (k a).same t ∙ h
  step-Quiet s (ended (raised e), t) f h k = h
  step-Quiet s (out_of_fuel, t) f h k = h

  pub step-ends :
      {A B : Type 0} (x : Run A × State V W) (f : A → Eff V W B)
      → Finished x.0
      → ((a : A) (t : State V W) → Finished (f a t).0)
      → Finished (step x f).0
  step-ends (ended (ok a), t) f h k = k a t
  step-ends (ended (raised e), t) f h k = tt
  step-ends (out_of_fuel, t) f h k = h

  pub bind-Quiet :
      {A B : Type 0} (m : Eff V W A) (f : A → Eff V W B)
      → Quiet m
      → ((a : A) → Quiet (f a))
      → Quiet (m >>= f)
  unfolding ◌>>=◌
  bind-Quiet m f q k = record {
    same = λ s. step-Quiet s (m s) f (q.same s) k;
    ends = λ s. step-ends (m s) f (q.ends s) (λ a. (k a).ends);
  }

  pub done-Quiet : {A : Type 0} (a : A) → Quiet (done a)
  done-Quiet a = record { same = λ s. refl; ends = λ s. tt }

  pub throw-Quiet : (A : Type 0) (e : Fault) → Quiet (throw {A = A} e)
  throw-Quiet A e = record { same = λ s. refl; ends = λ s. tt }

  pub lift-Quiet : {A : Type 0} (r : Reply A) → Quiet (lift r)
  lift-Quiet r = record { same = λ s. refl; ends = λ s. tt }

  pub outside-Quiet : {A : Type 0} (act : W → Reply A × W) → Quiet (outside act)
  outside-Quiet act = record { same = λ s. refl; ends = λ s. tt }

  pub required-Quiet : {A : Type 0} (o : Option A) → Quiet (required o)
  required-Quiet none = record { same = λ s. refl; ends = λ s. tt }
  required-Quiet (some a) = record { same = λ s. refl; ends = λ s. tt }

  pub from_result-Quiet : {A : Type 0} (r : Result A) → Quiet (from_result r)
  from_result-Quiet (return a) = record { same = λ s. refl; ends = λ s. tt }
  from_result-Quiet (raise e) = record { same = λ s. refl; ends = λ s. tt }

  pub if-Quiet :
      {A : Type 0} (b : Bool) (m k : Eff V W A) → Quiet m → Quiet k → Quiet (if b then m else k)
  if-Quiet true m k h j = h
  if-Quiet false m k h j = j

  pub if-Keeps :
      {A : Type 0} (b : Bool) (m k : Eff V W A) → Keeps m → Keeps k → Keeps (if b then m else k)
  if-Keeps true m k h j = h
  if-Keeps false m k h j = j
