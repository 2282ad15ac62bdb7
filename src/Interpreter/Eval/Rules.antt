-- ===== src/Interpreter/Eval/Rules.antt =====
-- Computations of the interpreter that end.
use julep.Prelude.{◌≡◌, refl, Bool, true, false, Result, return, raise, if◌then◌else◌}
use julep.Ir.{Node, Slot, absent, present}
use julep.Interpreter.Env.{Reply, ok, raised, State, Eff, ◌>>=◌, done, lift, from_result, required}
use julep.Interpreter.Parts.{slot}
use julep.Interpreter.Eval.Keeps.{Finished, step-ends, Quiet}

module _ {V W : Type 0} where
  pub record Ends {A : Type 0} (m : Eff V W A) : Type 0 where
    pub finishes : (s : State V W) → Finished (m s).0

  pub Quiet-Ends : {A : Type 0} (m : Eff V W A) → Quiet m → Ends m
  Quiet-Ends m q = record { finishes = q.ends }

  pub bind-Ends :
      {A B : Type 0} (m : Eff V W A) (f : A → Eff V W B)
      → Ends m
      → ((a : A) → Ends (f a))
      → Ends (m >>= f)
  unfolding ◌>>=◌
  bind-Ends m f h k = record {
    finishes = λ s. step-ends (m s) f (h.finishes s) (λ a. (k a).finishes);
  }

  pub then-Ends :
      {A B : Type 0} (m : Eff V W A) (f : A → Eff V W B)
      → Quiet m
      → ((a : A) → Ends (f a))
      → Ends (m >>= f)
  then-Ends m f q k = bind-Ends m f (Quiet-Ends m q) k

  -- What follows a reply may use that it was the reply.
  pub lift-Ends :
      {A B : Type 0} (r : Reply A) (f : A → Eff V W B)
      → ((a : A) → r ≡ ok a → Ends (f a))
      → Ends (lift r >>= f)
  unfolding ◌>>=◌
  lift-Ends (ok a) f h = record { finishes = (h a refl).finishes }
  lift-Ends (raised e) f h = record { finishes = λ s. tt }

  pub from_result-Ends :
      {A B : Type 0} (r : Result A) (f : A → Eff V W B)
      → ((a : A) → r ≡ return a → Ends (f a))
      → Ends (from_result r >>= f)
  unfolding ◌>>=◌
  from_result-Ends (return a) f h = record { finishes = (h a refl).finishes }
  from_result-Ends (raise e) f h = record { finishes = λ s. tt }

  pub slot-Ends :
      {B : Type 0} (sl : Slot) (f : Node → Eff V W B)
      → ((x : Node) → sl ≡ present x → Ends (f x))
      → Ends (required (slot sl) >>= f)
  unfolding ◌>>=◌
  slot-Ends absent f h = record { finishes = λ s. tt }
  slot-Ends (present x) f h = record { finishes = (h x refl).finishes }

  pub bind-done : {A B : Type 0} (a : A) (f : A → Eff V W B) → Ends (f a) → Ends (done a >>= f)
  unfolding ◌>>=◌
  bind-done a f h = record { finishes = h.finishes }

  pub if-Ends :
      {A : Type 0} (b : Bool) (m k : Eff V W A)
      → (b ≡ true → Ends m)
      → (b ≡ false → Ends k)
      → Ends (if b then m else k)
  if-Ends true m k h j = h refl
  if-Ends false m k h j = j refl
