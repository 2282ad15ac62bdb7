-- ===== src/Derived/Safe.antt =====
-- What `check_race_admission` of julep/derived.py admits to a race.
use julep.Prelude.{
  ◌≡◌, refl, sym, ap, ◌∙◌, true, Bool-cases, inl, inr, Option, none, some, List, [], ◌∷◌, All,
  All-append, All-append_left, All-append_right, All-of_In, In-All, Result, return, gather,
  return_injective, >>=-eq-return, arith,
}
use julep.Kinds.{Op}
use julep.Ir.{
  Merge, MergeKind, race_like, same_kind, Info, Node, node, Slot, absent, present, CaseSlot,
  slot_nodes, children, info,
}
use julep.Ir.Walk.{Node-induction}
use julep.Contracts.{ToolManifest}
use julep.Validate.Diagnostic.{Diagnostic, blocking, blocking_parts, blocking-gather, is_prim}
use julep.Derived.Scan.{tree_groups, scan_exact, scan-chain, flatten-root}
use julep.Derived.Within.{parts, Within, self, down, Within-trans, parts-children}
use julep.Derived.{
  unless_chained, both, in_group, is_par, flatten_race_group, branch_admission, race_kind,
  root_kind, check_race_admission,
}
use julep.Derived.Tree.{outside, inside, scan_tree, scan_branch}
use julep.Derived.Enough.{check_race_admission-tree}
use julep.Derived.Branch.{IsRaceSafe, SafeLeaf, SafeIn, admission-SafeIn}

-- A `par` whose losers are cancelled.
abbrev pub IsRace : Node → Type 0
IsRace n =
    (m : Merge) × (is_par (info n).op ≡ true)
    × ((info n).merge ≡ some m)
    × (race_like m.kind ≡ true)

module _ (m : ToolManifest) where
  abbrev SafeRaces : Node → Type 0
  SafeRaces n = (k : Node) → Within n k → IsRace k → SafeIn m k

  SafeIn-parts : (n : Node) → SafeLeaf m n → All (SafeIn m) (parts n) → SafeIn m n
  SafeIn-parts n own h k (self x) p = own p
  SafeIn-parts n own h k (down x c y e w) p = In-All (SafeIn m) h e y w p

  SafeRaces-parts : (n : Node) → (IsRace n → ⊥) → All SafeRaces (parts n) → SafeRaces n
  SafeRaces-parts n other h k (self x) r = absurd (other r)
  SafeRaces-parts n other h k (down x c y e w) r = In-All SafeRaces h e y w r

  SafeIn-races : (n : Node) → SafeIn m n → SafeRaces n
  SafeIn-races n h k w r j v = h j (Within-trans w v)

  -- Both readings of a scan_tree that blocks nothing.
  abbrev Scanned : Node → Type 0
  Scanned n =
      ((k : MergeKind) (ds : List Diagnostic)
        → scan_tree m (inside k) n ≡ return ds
        → blocking ds ≡ []
        → SafeIn m n)
      × ((ds : List Diagnostic)
          → scan_tree m (outside none) n ≡ return ds
          → blocking ds ≡ []
          → SafeRaces n)

  both-parts :
      (x y : Result (List Diagnostic)) (ds : List Diagnostic)
      → both x y ≡ return ds
      → blocking ds ≡ []
      → (xs ys : List Diagnostic) × (x ≡ return xs)
        × (y ≡ return ys)
        × (blocking xs ≡ [])
        × (blocking ys ≡ [])
  both-parts x y ds h b =
      let (xs, e, f) = >>=-eq-return x _ h in
      let (ys, e', f') = >>=-eq-return y _ f in
      let (b1, b2) = blocking_parts xs ys (ap blocking (return_injective f') ∙ b) in
      (xs, ys, e, e', b1, b2)

  branch-SafeIn :
      (k : MergeKind) (s : Slot) (xs : List Diagnostic)
      → All Scanned (slot_nodes s)
      → scan_branch m k s ≡ return xs
      → blocking xs ≡ []
      → All (SafeIn m) (slot_nodes s)
  unfolding scan_tree
  branch-SafeIn k absent xs h e b = tt
  branch-SafeIn k (present n) xs h e b = (h.0.0 k xs e b, tt)

  group-SafeIn :
      (i : Info) (l r b p d : Slot) (c : CaseSlot) (k : MergeKind) (ds : List Diagnostic)
      → in_group k i ≡ true
      → All Scanned (children (node i l r b p c d))
      → both (scan_branch m k l) (scan_branch m k r) ≡ return ds
      → blocking ds ≡ []
      → SafeIn m (node i l r b p c d)
  unfolding children
  group-SafeIn i l r b p d c k ds g h e bl =
      let (xs, ys, ex, ey, bx, by_) = both-parts _ _ ds e bl in
      let hl = All-append_left Scanned (slot_nodes l) _ h in
      let hr =
        All-append_left Scanned (slot_nodes r) _ (All-append_right Scanned (slot_nodes l) _ h) in
      let two =
        All-append (SafeIn m) (slot_nodes l) (slot_nodes r) (branch-SafeIn k l xs hl ex bx)
          (branch-SafeIn k r ys hr ey by_) in
      SafeIn-parts (node i l r b p c d) (λ prim. absurd (prim-or-par i.op (par-of g) prim))
        (rw (par-of g) two)
    where
      par-of : in_group k i ≡ true → is_par i.op ≡ true
      par-of h = ground arith

      prim-or-par : (op : Op) → is_par op ≡ true → is_prim op ≡ true → ⊥
      prim-or-par Op.par h k = cc
      prim-or-par _ h k = cc

  inside-SafeIn :
      (n : Node) (k : MergeKind) (ds : List Diagnostic)
      → All Scanned (children n)
      → scan_tree m (inside k) n ≡ return ds
      → blocking ds ≡ []
      → SafeIn m n
  unfolding scan_tree
  inside-SafeIn (node i l r b p c d) k ds h e bl = elim (Bool-cases (in_group k i)) [
    | inl g ↦ group-SafeIn i l r b p d c k ds g h (rw g at e) bl
    | inr g ↦
        (let (xs, ys, ex, ey, bx, by_) =
            both-parts (branch_admission m (node i l r b p c d)) _ ds (rw g at e) bl in
          admission-SafeIn m (node i l r b p c d) xs ex bx)
  ]

  unraced : (i : Info) → root_kind i none ≡ none → race_kind i ≡ none
  unfolding same_kind
  unraced i h = go (race_kind i) h
    where
      go : (o : Option MergeKind) → unless_chained o none ≡ none → o ≡ none
      go none h = refl
      go (some k) h = h

  other-IsRace : (n : Node) → race_kind (info n) ≡ none → IsRace n → ⊥
  other-IsRace n h (mm, p, e, r) = some_none (rw (p, e, r) at h)
    where
      some_none : some mm.kind ≡ none → ⊥
      some_none h = cc

  abbrev Quiet : Node → Type 0
  Quiet c = (d : List Diagnostic) × (scan_tree m (outside none) c ≡ return d) × (blocking d ≡ [])

  Quiet-SafeRaces : (xs : List Node) → All Scanned xs → All Quiet xs → All SafeRaces xs
  Quiet-SafeRaces [] h q = tt
  Quiet-SafeRaces (x ∷ xs) h q = let (d, e, b) = q.0 in (h.0.1 d e b, Quiet-SafeRaces xs h.1 q.1)

  parts-All : (P : Node → Type 0) (n : Node) → All P (children n) → All P (parts n)
  parts-All P n h =
      All-of_In (λ _. Unit {0}) P (parts n) (λ c w _. In-All P h (parts-children n c w))
        (trivial (parts n))
    where
      trivial : (xs : List Node) → All (λ _. Unit {0}) xs
      trivial [] = tt
      trivial (x ∷ xs) = (tt, trivial xs)

  outside-SafeRaces :
      (n : Node) (ds : List Diagnostic)
      → All Scanned (children n)
      → scan_tree m (outside none) n ≡ return ds
      → blocking ds ≡ []
      → SafeRaces n
  outside-SafeRaces n ds h e bl = go (root_kind (info n) none) refl (sym (scan_exact m none n) ∙ e)
    where
      go :
          (o : Option MergeKind)
          → root_kind (info n) none ≡ o
          → tree_groups m o n
              (gather (λ c. scan_tree m (outside (race_kind (info n))) c) (children n))
            ≡ return ds
          → SafeRaces n
      go none o f =
          let none_below =
            ap (λ q. gather (λ c. scan_tree m (outside q) c) (children n)) (unraced (info n) o) in
          let below =
            blocking-gather (λ c. scan_tree m (outside none) c) (children n) ds (sym none_below ∙ f)
              bl in
          SafeRaces-parts n (other-IsRace n (unraced (info n) o))
            (parts-All SafeRaces n (Quiet-SafeRaces (children n) h below))
      go (some k) o f =
          let (bs, e1, e2) = >>=-eq-return (flatten_race_group n) _ f in
          SafeIn-races n (
            inside-SafeIn n k ds h (scan-chain m k n bs (sym (flatten-root n none k o) ∙ e1) ∙ e2)
              bl)

  scanned : (n : Node) → Scanned n
  scanned =
      Node-induction {P = Scanned}
        (λ n h. (λ k ds e b. inside-SafeIn n k ds h e b, λ ds e b. outside-SafeRaces n ds h e b))

-- If the admission of races reports nothing that blocks, every leaf in a race, a hedge or a quorum,
-- at any depth, is safe to cancel: it is no sub-flow, and if it is a call then its frozen hash has an
-- asserted contract in the manifest, which is read-only or natively or required idempotent.
pub admitted_races :
    (m : ToolManifest) (flow race leaf : Node) (ds : List Diagnostic)
    → check_race_admission flow m ≡ return ds
    → blocking ds ≡ []
    → Within flow race
    → IsRace race
    → Within race leaf
    → is_prim (info leaf).op ≡ true
    → IsRaceSafe m (info leaf).step
admitted_races m flow race leaf ds e b w r v p =
    (scanned m flow).1 ds (sym (check_race_admission-tree flow m) ∙ e) b race w r leaf v p
