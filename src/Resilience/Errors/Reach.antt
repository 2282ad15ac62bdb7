-- ===== src/Resilience/Errors/Reach.antt =====
-- The exceptions that links lead to, and a count of those that a search did not enter yet.
use julep.Prelude.{
  ℕ, zero, suc, ◌+◌, ◌≤◌, ◌<◌, ◌≡◌, refl, false, ◌||◌, ◌==◌, Option, none, some, List, [], ◌∷◌,
  ◌++◌, if◌then◌else◌, arith,
}
use julep.Resilience.Errors.{Exc, Heap, has_id}

-- The addresses that links lead to, from `e`.
pub data Reaches (at : ℕ → Exc) (e : ℕ) : ℕ → Type 0 where
  self : Reaches at e e
  caused : {a b : ℕ} → Reaches at e a → (at a).cause ≡ some b → Reaches at e b
  during : {a b : ℕ} → Reaches at e a → (at a).context ≡ some b → Reaches at e b

-- A link that is an address has a property.
abbrev pub Link : (ℕ → Type 0) → Option ℕ → Type 0
Link P none = Unit
Link P (some b) = P b

-- Every link of an object leads to an object.
abbrev pub NoDangling : Heap → Type 0
NoDangling h =
    (a : ℕ)
    → a < h.size
    → Link (λ b. b < h.size) (h.at a).cause × Link (λ b. b < h.size) (h.at a).context

pub has_id-append : (a x : ℕ) (xs : List ℕ) → has_id a (xs ++ (x ∷ [])) ≡ (has_id a xs || x == a)
unfolding has_id
has_id-append a x [] = ground arith
has_id-append a x (y ∷ xs) = ground (arith, has_id-append a x xs)

-- The objects that were not entered.
unfoldable pub unseen : ℕ → List ℕ → ℕ
unfolding has_id
unseen zero seen = 0
unseen (suc n) seen = (if has_id n seen then 0 else 1) + unseen n seen

pub unseen_beyond : (n a : ℕ) (seen : List ℕ) → n ≤ a → unseen n (a ∷ seen) ≡ unseen n seen
unfolding has_id unseen
unseen_beyond zero a seen h = refl
unseen_beyond (suc n) a seen h = ground (arith, unseen_beyond n a seen (omega arith))

pub unseen_enter :
    (n a : ℕ) (seen : List ℕ)
    → a < n
    → has_id a seen ≡ false
    → unseen n seen ≡ suc (unseen n (a ∷ seen))
unfolding has_id unseen
unseen_enter zero a seen h e = omega arith
unseen_enter (suc n) a seen h e = ground (arith, unseen_beyond n a seen, unseen_enter n a seen, e)

pub unseen_all : (n : ℕ) → unseen n [] ≡ n
unfolding unseen has_id
unseen_all zero = refl
unseen_all (suc n) = omega (arith, unseen_all n)
