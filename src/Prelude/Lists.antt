-- ===== src/Prelude/Lists.antt =====
-- Lists measured by native numbers, a predicate on every element, and collected lists.
use Prim.Native.Nat.{ℕ, zero, suc, ◌+◌, ◌-◌, ◌≤◌}
use mathlib.Core.Path.{◌≡◌, refl, sym, ap, ◌∙◌}
use mathlib.Core.Bool.{Bool, false, ◌||◌}
use mathlib.Core.List.{List, [], ◌∷◌, ◌++◌, append_assoc}
use native.Mathlib.Omega.{arith}

module _ {ℓ} {A : Type ℓ} where
  abbrev pub length : List A → ℕ
  length [] = 0
  length (x ∷ xs) = suc (length xs)

  abbrev pub any : (A → Bool) → List A → Bool
  any p [] = false
  any p (x ∷ xs) = p x || any p xs

  pub length-append : (xs ys : List A) → length (xs ++ ys) ≡ length xs + length ys
  length-append [] ys = omega arith
  length-append (x ∷ xs) ys = omega (arith, length-append xs ys)

  pub append-eq_nil : (xs ys : List A) → xs ++ ys ≡ [] → (xs ≡ []) × (ys ≡ [])
  append-eq_nil [] ys h = (refl, h)
  append-eq_nil (x ∷ xs) ys h = cc

  pub any-append : (p : A → Bool) (xs ys : List A) → any p (xs ++ ys) ≡ (any p xs || any p ys)
  any-append p [] ys = refl
  any-append p (x ∷ xs) ys = ground (arith, any-append p xs ys)

module _ {ℓ κ} {A : Type ℓ} where
  abbrev pub All : (A → Type κ) → List A → Type κ
  All P [] = Unit
  All P (x ∷ xs) = P x × All P xs

  pub All-append : (P : A → Type κ) (xs ys : List A) → All P xs → All P ys → All P (xs ++ ys)
  All-append P [] ys hx hy = hy
  All-append P (x ∷ xs) ys hx hy = (hx.0, All-append P xs ys hx.1 hy)

  pub All-append_left : (P : A → Type κ) (xs ys : List A) → All P (xs ++ ys) → All P xs
  All-append_left P [] ys h = tt
  All-append_left P (x ∷ xs) ys h = (h.0, All-append_left P xs ys h.1)

  pub All-append_right : (P : A → Type κ) (xs ys : List A) → All P (xs ++ ys) → All P ys
  All-append_right P [] ys h = h
  All-append_right P (x ∷ xs) ys h = All-append_right P xs ys h.1

module _ {ℓ κ μ} {A : Type ℓ} where
  pub All-map :
      (P : A → Type κ) (Q : A → Type μ) (f : (x : A) → P x → Q x) (xs : List A)
      → All P xs
      → All Q xs
  All-map P Q f [] h = tt
  All-map P Q f (x ∷ xs) h = (f x h.0, All-map P Q f xs h.1)

module _ {ℓ κ} {A : Type ℓ} {B : Type κ} where
  -- `for x in xs: out.extend(f(x))`
  abbrev pub collect : (A → List B) → List A → List B
  collect f [] = []
  collect f (x ∷ xs) = f x ++ collect f xs

  pub collect-append :
      (f : A → List B) (xs ys : List A) → collect f (xs ++ ys) ≡ collect f xs ++ collect f ys
  collect-append f [] ys = refl
  collect-append f (x ∷ xs) ys = simp (collect-append f xs ys, append_assoc)

  -- Nothing collected means that no element gave anything.
  pub collect-eq_nil : (f : A → List B) (xs : List A) → collect f xs ≡ [] → All (λ x. f x ≡ []) xs
  collect-eq_nil f [] h = tt
  collect-eq_nil f (x ∷ xs) h =
      let (a, b) = append-eq_nil (f x) (collect f xs) h in (a, collect-eq_nil f xs b)

  pub collect-of_nil : (f : A → List B) (xs : List A) → All (λ x. f x ≡ []) xs → collect f xs ≡ []
  collect-of_nil f [] h = refl
  collect-of_nil f (x ∷ xs) h = rw h.0 (collect-of_nil f xs h.1)

-- An element of a list, at its place.
pub data In {ℓ} {A : Type ℓ} (a : A) : List A → Type ℓ where
  here : {xs : List A} → In a (a ∷ xs)
  there : {x : A} {xs : List A} → In a xs → In a (x ∷ xs)

pub In-All {ℓ κ} : {A : Type ℓ} (P : A → Type κ) {a : A} {xs : List A} → All P xs → In a xs → P a
In-All P h here = h.0
In-All P h (there m) = In-All P h.1 m

-- A property of every element, from one that may use where the element stands.
pub All-of_In {ℓ κ μ} :
    {A : Type ℓ} (P : A → Type κ) (Q : A → Type μ) (xs : List A)
    → ((a : A) → In a xs → P a → Q a)
    → All P xs
    → All Q xs
All-of_In P Q [] f h = tt
All-of_In P Q (x ∷ xs) f h = (f x here h.0, All-of_In P Q xs (λ a m. f a (there m)) h.1)

-- What holds of all that is collected holds of each part.
pub All-collect {ℓ κ μ} :
    {A : Type ℓ} {B : Type κ} (P : B → Type μ) (f : A → List B) (xs : List A)
    → All P (collect f xs)
    → All (λ x. All P (f x)) xs
All-collect P f [] h = tt
All-collect P f (x ∷ xs) h = (
  All-append_left P (f x) (collect f xs) h,
  All-collect P f xs (All-append_right P (f x) (collect f xs) h),
)

pub In-append_left {ℓ} : {A : Type ℓ} {a : A} (xs ys : List A) → In a xs → In a (xs ++ ys)
In-append_left [] ys m = elim m [ ]
In-append_left (x ∷ xs) ys here = here
In-append_left (x ∷ xs) ys (there m) = there (In-append_left xs ys m)

pub In-append_right {ℓ} : {A : Type ℓ} {a : A} (xs ys : List A) → In a ys → In a (xs ++ ys)
In-append_right [] ys m = m
In-append_right (x ∷ xs) ys m = there (In-append_right xs ys m)

pub In-append_cases {ℓ κ} :
    {A : Type ℓ} {C : Type κ} {a : A} (xs ys : List A)
    → (In a xs → C)
    → (In a ys → C)
    → In a (xs ++ ys)
    → C
In-append_cases [] ys f g m = g m
In-append_cases (x ∷ xs) ys f g here = f here
In-append_cases (x ∷ xs) ys f g (there m) = In-append_cases xs ys (λ k. f (there k)) g m

pub In-collect {ℓ κ} :
    {A : Type ℓ} {B : Type κ} (f : A → List B) {a : A} {b : B} {xs : List A}
    → In a xs
    → In b (f a)
    → In b (collect f xs)
In-collect f {xs = []} m k = elim m [ ]
In-collect f {xs = x ∷ xs} here k = In-append_left (f x) (collect f xs) k
In-collect f {xs = x ∷ xs} (there m) k = In-append_right (f x) (collect f xs) (In-collect f m k)

module _ {ℓ} {A : Type ℓ} where
  -- `xs[:n]`
  abbrev pub take : ℕ → List A → List A
  take zero xs = []
  take (suc n) [] = []
  take (suc n) (x ∷ xs) = x ∷ take n xs

  -- `xs[n:]`
  abbrev pub drop : ℕ → List A → List A
  drop zero xs = xs
  drop (suc n) [] = []
  drop (suc n) (x ∷ xs) = drop n xs

  pub take_append_drop : (n : ℕ) (xs : List A) → take n xs ++ drop n xs ≡ xs
  take_append_drop zero xs = refl
  take_append_drop (suc n) [] = refl
  take_append_drop (suc n) (x ∷ xs) = ap (◌∷◌ x) (take_append_drop n xs)

  pub length-take : (n : ℕ) (xs : List A) → length (take n xs) ≤ n
  length-take zero xs = omega arith
  length-take (suc n) [] = omega arith
  length-take (suc n) (x ∷ xs) = omega (arith, length-take n xs)

  pub length-drop : (n : ℕ) (xs : List A) → length (drop n xs) ≡ length xs - n
  length-drop zero xs = omega arith
  length-drop (suc n) [] = omega arith
  length-drop (suc n) (x ∷ xs) = omega (arith, length-drop n xs)

  -- `list(chain(*xss))`
  abbrev pub concat : List (List A) → List A
  concat [] = []
  concat (xs ∷ xss) = xs ++ concat xss

  pub concat-append : (xss yss : List (List A)) → concat (xss ++ yss) ≡ concat xss ++ concat yss
  concat-append [] yss = refl
  concat-append (xs ∷ xss) yss =
      ap (λ z. xs ++ z) (concat-append xss yss) ∙ sym (append_assoc xs (concat xss) (concat yss))
