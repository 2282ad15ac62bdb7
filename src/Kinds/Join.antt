-- ===== src/Kinds/Join.antt =====
-- The order and the join of shapes, by cost (julep/kinds.py).
use mathlib.Core.List.{foldl}
use julep.Prelude.{◌≤◌, ◌≡◌, List, [], ◌∷◌, All, arith}
use julep.Kinds.{Shape, shape_rank, costlier, shape_join}

infix 50 ◌⊑◌
-- `shape_leq`, as a relation.
abbrev pub ◌⊑◌ : Shape → Shape → Type 0
a ⊑ b = shape_rank a ≤ shape_rank b

pub ⊑-antisymm : (a b : Shape) → a ⊑ b → b ⊑ a → a ≡ b
⊑-antisymm a b h k = ground arith

pub costlier_lub : (a b c : Shape) → a ⊑ c → b ⊑ c → costlier a b ⊑ c
costlier_lub a b c h k = ground arith

pub le-costlier : (a b : Shape) → (a ⊑ costlier a b) × (b ⊑ costlier a b)
le-costlier a b = ground arith

fold-le : (s : Shape) (l : List Shape) → s ⊑ foldl costlier s l
fold-le s [] = omega arith
fold-le s (x ∷ l) = omega (arith, fold-le (costlier s x) l, le-costlier s x)

fold-All : (s : Shape) (l : List Shape) → All (λ x. x ⊑ foldl costlier s l) l
fold-All s [] = tt
fold-All s (x ∷ l) =
    (omega (arith, fold-le (costlier s x) l, le-costlier s x), fold-All (costlier s x) l)

fold_lub : (s b : Shape) (l : List Shape) → s ⊑ b → All (λ x. x ⊑ b) l → foldl costlier s l ⊑ b
fold_lub s b [] h k = h
fold_lub s b (x ∷ l) h k = fold_lub (costlier s x) b l (costlier_lub s x b h k.0) k.1

pub shape_join_upper : (l : List Shape) → All (λ x. x ⊑ shape_join l) l
unfolding shape_join
shape_join_upper [] = tt
shape_join_upper (s ∷ l) = (fold-le s l, fold-All s l)

pub shape_join_least : (b : Shape) (l : List Shape) → All (λ x. x ⊑ b) l → shape_join l ⊑ b
unfolding shape_join
shape_join_least b [] h = omega arith
shape_join_least b (s ∷ l) h = fold_lub s b l h.0 h.1
