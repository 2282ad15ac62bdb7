-- ===== src/Interpreter/Static/Branches.antt =====
-- The branches of a static `par` are static, and smaller than it.
use julep.Prelude.{
  ℕ, suc, ◌≡◌, refl, sym, Bool, true, false, Option, none, some, List, [], ◌∷◌, ◌++◌, All,
  All-append, In, if◌then◌else◌, arith, return,
}
use mathlib.Core.Path.{subst}
use julep.Ir.{
  Merge, MergeKind, all, race, hedge, quorum, unknown, race_like, same_kind, Info, Node, node, Slot,
  absent, present, info, children,
}
use julep.Derived.{in_group, merges_as, flatten_from, is_par, flatten, flatten_race_group}
use julep.Derived.Branches.{group-All}
use julep.Interpreter.Env.{ok_injective, Reply, ok, raised}
use julep.Interpreter.Parts
use julep.Interpreter.Parts.{merges_all, all_branches, branches_below, get_case, kind_of}
use julep.Interpreter.Static.{Small, Small-le, le_suc, child-Small, left-In, right-In}

-- The two lists that a list of branches is made of.
both_parts :
    (l r : Reply (List Node)) (bs : List Node)
    → Parts.both l r ≡ ok bs
    → (xs ys : List Node) × (l ≡ ok xs) × (r ≡ ok ys) × (bs ≡ xs ++ ys)
both_parts (ok xs) (ok ys) bs e = (xs, ys, refl, refl, ground arith)
both_parts (ok xs) (raised f) bs e = cc
both_parts (raised f) r bs e = cc

of_branches :
    {P : Type 0} (par whole : Bool) (two self : Reply (List Node)) {bs : List Node}
    → elim par [ true ↦ if whole then two else self | false ↦ self ] ≡ ok bs
    → (two ≡ ok bs → P)
    → (self ≡ ok bs → P)
    → P
of_branches true true two self e h k = h e
of_branches true false two self e h k = k e
of_branches false whole two self e h k = k e

of_whole :
    (par whole : Bool) (two self : Reply (List Node)) {bs : List Node}
    → par ≡ true
    → whole ≡ true
    → elim par [ true ↦ if whole then two else self | false ↦ self ] ≡ ok bs
    → two ≡ ok bs
of_whole true true two self h k e = e
of_whole true false two self h k e = cc
of_whole false whole two self h k e = cc

pair-Small :
    {f : ℕ} (l r : Reply (List Node))
    → ((xs : List Node) → l ≡ ok xs → All (λ b. Small f b) xs)
    → ((xs : List Node) → r ≡ ok xs → All (λ b. Small f b) xs)
    → (bs : List Node) → Parts.both l r ≡ ok bs
    → All (λ b. Small f b) bs
pair-Small {f} l r hl hr bs e =
    let (xs, ys, el, er, eb) = both_parts l r bs e in
    rw eb (All-append (λ z. Small f z) xs ys (hl xs el) (hr ys er))

-- `_all_branches` gives nodes of the flow.
mutual
  unfolding all_branches

  all_branches-Small :
      {f : ℕ} (n : Node)
      → Small f n
      → (bs : List Node) → all_branches n ≡ ok bs
      → All (λ b. Small f b) bs
  all_branches-Small {f} (node i l r b p c d) s bs e =
      let down = λ (x : Node) (m : In x (children (node i l r b p c d))).
        child-Small {f = f} (node i l r b p c d) x (Small-le (le_suc f) s) m in
      of_branches (is_par i.op) (merges_all i.merge)
        (Parts.both (branches_below l) (branches_below r)) (ok (node i l r b p c d ∷ [])) e
        (λ h.
          pair-Small _ _ (branches_below-Small l (λ x q. down x (left-In i l r b p c d x q)))
            (branches_below-Small r (λ x q. down x (right-In i l r b p c d x q))) bs h)
        (λ h. subst (All (λ z. Small f z)) (ok_injective h) (s, tt))

  branches_below-Small :
      {f : ℕ} (sl : Slot)
      → ((x : Node) → sl ≡ present x → Small f x)
      → (bs : List Node) → branches_below sl ≡ ok bs
      → All (λ b. Small f b) bs
  branches_below-Small absent h bs e = cc
  branches_below-Small (present n) h bs e = all_branches-Small n (h n refl) bs e

-- The branches of a group that joins all of them are smaller than the group.
pub joined-Small :
    {f : ℕ} (n : Node)
    → is_par (info n).op ≡ true
    → merges_all (info n).merge ≡ true
    → Small (suc f) n
    → (bs : List Node) → all_branches n ≡ ok bs
    → All (λ b. Small f b) bs
unfolding all_branches
joined-Small (node i l r b p c d) par whole s bs e =
    pair-Small _ _
      (branches_below-Small l
        (λ x q. child-Small (node i l r b p c d) x s (left-In i l r b p c d x q)))
      (branches_below-Small r
        (λ x q. child-Small (node i l r b p c d) x s (right-In i l r b p c d x q)))
      bs (of_whole (is_par i.op) (merges_all i.merge) _ (ok (node i l r b p c d ∷ [])) par whole e)

same_kind_race : (k : MergeKind) → race_like k ≡ true → same_kind k k ≡ true
unfolding same_kind
same_kind_race all h = cc
same_kind_race race h = refl
same_kind_race hedge h = refl
same_kind_race quorum h = refl
same_kind_race (unknown t) h = cc

race_merge :
    (m : Option Merge)
    → race_like (kind_of m) ≡ true
    → (k : Merge) × (m ≡ some k) × (race_like k.kind ≡ true)
race_merge none h = cc
race_merge (some k) h = (k, refl, h)

grouped_as :
    (k : MergeKind) (i : Info)
    → is_par i.op ≡ true
    → merges_as k i.merge ≡ true
    → in_group k i ≡ true
grouped_as k i par same = ground arith

-- The branches of a race are smaller than the race.
pub raced-Small :
    {f : ℕ} (n : Node)
    → is_par (info n).op ≡ true
    → race_like (kind_of (info n).merge) ≡ true
    → Small (suc f) n
    → (bs : List Node) → flatten_race_group n ≡ return bs
    → All (λ b. Small f b) bs
unfolding flatten_race_group
raced-Small {f} (node i l r b p c d) par races s bs e =
    let (m, given, like) = race_merge i.merge races in
    let grouped : flatten m.kind (node i l r b p c d) ≡ return bs =
      subst (λ z. flatten_from z (node i l r b p c d) ≡ return bs) given e in
    group-All (Small f) (λ n k q j. child-Small n k (Small-le (le_suc f) q) j) m.kind
      (node i l r b p c d)
      (grouped_as m.kind i par
        (subst (λ z. merges_as m.kind z ≡ true) (sym given) (same_kind_race m.kind like)))
      (λ x j. child-Small (node i l r b p c d) x s j) bs grouped
