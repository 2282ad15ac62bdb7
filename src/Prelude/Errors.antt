-- ===== src/Prelude/Errors.antt =====
-- Python code that may raise: the exceptions that the modelled code can meet, and their monad.
use mathlib.Core.Path.{◌≡◌, refl}
use mathlib.Core.List.{List, [], ◌∷◌, ◌++◌}

pub data Exception : Type 0 where
  -- a failed `assert`
  assertion_error : Exception
  -- `None.op`, on a missing child
  attribute_error : Exception
  -- `float(n)` of an integer beyond the largest float
  overflow_error : Exception
  value_error : Exception
  -- `CapabilityDenied`
  capability_denied : Exception
  -- `JulepError`
  julep_error : Exception
  -- `GCError`
  gc_error : Exception
  -- `PlanRejected`
  plan_rejected : Exception

pub data Result {ℓ} (A : Type ℓ) : Type ℓ where
  return : A → Result A
  raise : Exception → Result A

infixl 5 ◌>>=◌
abbrev pub ◌>>=◌ {ℓ κ} : {A : Type ℓ} {B : Type κ} → Result A → (A → Result B) → Result B
return a >>= f = f a
raise e >>= f = raise e

pub return_injective {ℓ} : {A : Type ℓ} {a b : A} → return a ≡ return b → a ≡ b
return_injective h = cc

pub >>=-eq-return {ℓ κ} :
    {A : Type ℓ} {B : Type κ} (m : Result A) (f : A → Result B) {b : B}
    → (m >>= f) ≡ return b
    → (a : A) × (m ≡ return a) × (f a ≡ return b)
>>=-eq-return (return a) f h = (a, refl, h)
>>=-eq-return (raise e) f h = cc

module _ {ℓ κ} {A : Type ℓ} {B : Type κ} where
  -- A loop whose body adds to a list and may raise.
  abbrev pub gather : (A → Result (List B)) → List A → Result (List B)
  gather f [] = return []
  gather f (x ∷ xs) = do here ← f x; rest ← gather f xs; return (here ++ rest)
