-- ===== src/Derived/Flatten.antt =====
-- `_par_group` and `flatten_race_group` of julep/derived.py. Flattening a group gives its branches back,
-- if none of them is itself a group of the same kind.
use julep.Prelude.{
  ◌≡◌, refl, ap, ℕ, suc, Text, text, text_eq_self, Bool, true, false, ltb_ℤ, ◌||◌, ◌⊎◌, inl, inr,
  ◌≤ℤ◌, ◌+◌, ℤ, pos, Bool-cases, Option, none, some, List, [], ◌∷◌, length, All, return, raise,
  value_error, arith,
}
use julep.Ir.{
  Merge, MergeKind, all, race, hedge, quorum, unknown, same_kind, SourceSpan, Node, node, info,
}
use julep.Derived.{in_group, flatten, flatten_race_group}
use julep.Derived.Combinators.{merge_of, fold_group, par_group, quorum_of}

pub same_kind_self : (k : MergeKind) → same_kind k k ≡ true
unfolding same_kind
same_kind_self all = refl
same_kind_self race = refl
same_kind_self hedge = refl
same_kind_self quorum = refl
same_kind_self (unknown t) = text_eq_self t

-- A branch that is no group of the kind.
abbrev pub IsOpaque : MergeKind → Node → Type 0
IsOpaque k n = in_group k (info n) ≡ false

flatten-opaque : (k : MergeKind) (n : Node) → IsOpaque k n → flatten k n ≡ return (n ∷ [])
unfolding flatten same_kind
flatten-opaque k (node i l r b p c d) h = rw h

abbrev out_of_range : ℤ → ℕ → Bool
out_of_range k l = ltb_ℤ k (pos 1) || ltb_ℤ (pos l) k

too_few_or_many : (k : ℤ) (l : ℕ) → out_of_range k l ≡ true → (k ≤ℤ pos 0) ⊎ (pos (suc l) ≤ℤ k)
too_few_or_many k l h = ground arith

in_range : (k : ℤ) (l : ℕ) → out_of_range k l ≡ false → (pos 1 ≤ℤ k) × (k ≤ℤ pos l)
in_range k l h = ground arith

module _ (source : Option SourceSpan) (m : Merge) (tag : Text) where
  flatten-fold :
      (x : Node) (xs : List Node) (n : ℕ)
      → All (IsOpaque m.kind) (x ∷ xs)
      → flatten m.kind (fold_group source m tag x xs n).0 ≡ return (x ∷ xs)
  unfolding flatten same_kind fold_group
  flatten-fold x [] n h = flatten-opaque m.kind x h.0
  flatten-fold x (y ∷ ys) n h =
      rw (same_kind_self m.kind, flatten-opaque m.kind x h.0, flatten-fold y ys n h.1)

  fold-count :
      (x : Node) (xs : List Node) (n : ℕ) → (fold_group source m tag x xs n).1 ≡ n + length xs
  unfolding fold_group
  fold-count x [] n = omega arith
  fold-count x (y ∷ ys) n = omega (arith, fold-count y ys n)

-- Two or more branches, none of which is itself a group of the same kind, are what flattening their
-- group gives back, in order; the group takes one id less than it has branches.
pub flatten-group :
    (source : Option SourceSpan) (m : Merge) (tag : Text) (x y : Node) (rest : List Node) (n : ℕ)
    → All (IsOpaque m.kind) (x ∷ y ∷ rest)
    → (g : Node) × (par_group source (x ∷ y ∷ rest) m tag n ≡ return (g, n + length (y ∷ rest)))
      × (flatten_race_group g ≡ return (x ∷ y ∷ rest))
unfolding par_group flatten_race_group fold_group
flatten-group source m tag x y rest n h = (
  (fold_group source m tag x (y ∷ rest) n).0,
  ap (λ k. return ((fold_group source m tag x (y ∷ rest) n).0, k))
      (fold-count source m tag x (y ∷ rest) n),
  flatten-fold source m tag x (y ∷ rest) n h,
)

-- A quorum raises `ValueError` if it asks for less than one success or for more than there are
-- branches, and otherwise returns a group, whose branches are the given ones if none of them is
-- itself a quorum.
quorum_exact :
    (source : Option SourceSpan) (flows : List Node) (k : ℤ) (reduce : Option Text) (n : ℕ)
    → All (IsOpaque quorum) flows
    → (((k ≤ℤ pos 0) ⊎ (pos (suc (length flows)) ≤ℤ k))
        × (quorum_of source flows k reduce n ≡ raise value_error))
      ⊎ ((pos 1 ≤ℤ k)
          × (k ≤ℤ pos (length flows))
          × (g : Node) × (j : ℕ) × (quorum_of source flows k reduce n ≡ return (g, j))
          × (flatten quorum g ≡ return flows))
unfolding quorum_of par_group
quorum_exact source [] k reduce n h = inl (empty k, ground arith)
  where
    empty : (k : ℤ) → (k ≤ℤ pos 0) ⊎ (pos 1 ≤ℤ k)
    empty k = ground arith
quorum_exact source (x ∷ xs) k reduce n h = elim (Bool-cases (out_of_range k (length (x ∷ xs)))) [
  | inl bad ↦ inl (too_few_or_many k _ bad, rw bad)
  | inr good ↦
      (let (lo, hi) = in_range k _ good in
        inr (
          lo,
          hi,
          (fold_group source (merge_of quorum none (some k) reduce) (text "quorum") x xs n).0,
          (fold_group source (merge_of quorum none (some k) reduce) (text "quorum") x xs n).1,
          rw good,
          flatten-fold source (merge_of quorum none (some k) reduce) (text "quorum") x xs n h,
        ))
]
