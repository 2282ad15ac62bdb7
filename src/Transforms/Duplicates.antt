-- ===== src/Transforms/Duplicates.antt =====
-- The duplicate check of julep/transforms.py, and distinct ids.
use julep.Prelude.{
  ◌≡◌, refl, Text, has_text, text_eq, text_eq_iff, Bool, true, false, not, ◌&&◌, ◌||◌, List, [],
  ◌∷◌, ◌↔◌, ◌≢◌, All, inl, inr, arith, sym, ◌∙◌, ◌⊎◌, if◌then◌else◌, or-eq_false,
}
use mathlib.Core.Bool.{false≢true}
use julep.Ir.{Node, walk}
use julep.Transforms.{ids, repeated_ids, insert_sorted, sorted, collect_duplicate_ids}

-- No text stands twice in the list.
abbrev pub Distinct : List Text → Type 0
Distinct [] = Unit
Distinct (x ∷ xs) = All (λ y. x ≢ y) xs × Distinct xs

absent_iff : (x : Text) (xs : List Text) → (has_text x xs ≡ false) ↔ All (λ y. x ≢ y) xs
unfolding has_text
absent_iff x [] = (λ h. tt, λ h. refl)
absent_iff x (y ∷ xs) = (
  λ h. (
    (λ e. cc ((text_eq_iff y x).1 (sym e), (or-eq_false (text_eq y x) (has_text x xs) h).0)),
    (absent_iff x xs).0 (or-eq_false (text_eq y x) (has_text x xs) h).1,
  ),
  λ h. rw ((absent_iff x xs).1 h.1) (differ (text_eq y x) (λ e. h.0 (sym ((text_eq_iff y x).0 e)))),
)
  where
    differ : (b : Bool) → ¬ (b ≡ true) → (b || false) ≡ false
    differ true h = absurd (h refl)
    differ false h = refl

split_repeated :
    (b c : Bool) (x : Text) (rest : List Text)
    → (if b && not c then x ∷ rest else rest) ≡ []
    → (rest ≡ []) × ((b ≡ false) ⊎ (c ≡ true))
split_repeated b c x rest h = ground arith

absent-nil : (x : Text) (rest : List Text) → rest ≡ [] → has_text x rest ≡ false
unfolding has_text
absent-nil x rest h = rw h

repeated-Distinct : (xs : List Text) → repeated_ids xs ≡ [] → Distinct xs
unfolding repeated_ids
repeated-Distinct [] h = tt
repeated-Distinct (x ∷ xs) h =
    let (none_left, cases) = split_repeated (has_text x xs) (has_text x (repeated_ids xs)) x _ h in
    let rest = repeated-Distinct xs none_left in
    elim cases [
      | inl absent ↦ ((absent_iff x xs).0 absent, rest)
      | inr kept ↦ absurd (false≢true (sym (absent-nil x (repeated_ids xs) none_left) ∙ kept))
    ]

Distinct-repeated : (xs : List Text) → Distinct xs → repeated_ids xs ≡ []
unfolding repeated_ids
Distinct-repeated [] h = refl
Distinct-repeated (x ∷ xs) h = rw ((absent_iff x xs).1 h.0) (Distinct-repeated xs h.1)

insert_sorted-cons : (x : Text) (xs : List Text) → insert_sorted x xs ≢ []
unfolding insert_sorted
insert_sorted-cons x [] h = cc
insert_sorted-cons x (y ∷ ys) h = ground arith

sorted-eq_nil : (xs : List Text) → sorted xs ≡ [] → xs ≡ []
unfolding sorted
sorted-eq_nil [] h = refl
sorted-eq_nil (x ∷ xs) h = absurd (insert_sorted-cons x (sorted xs) h)

-- No duplicate is reported exactly when the ids of all nodes of the flow are distinct.
pub duplicates_exact :
    (flow : Node) → (collect_duplicate_ids flow ≡ []) ↔ Distinct (ids (walk flow))
unfolding collect_duplicate_ids
duplicates_exact flow =
    (λ h. repeated-Distinct _ (sorted-eq_nil _ h), λ h. rw (Distinct-repeated _ h) refl)
