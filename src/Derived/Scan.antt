-- ===== src/Derived/Scan.antt =====
-- The scan_tree of julep/derived.py, against its two loops: the one over the flattened group, and the one
-- over the children.
use julep.Prelude.{
  some_injective, ◌≡◌, refl, sym, ap, ◌∙◌, Bool, true, false, Bool-cases, inl, inr, Option, none,
  some, List, [], ◌∷◌, ◌++◌, append_assoc, append-nil, Result, return, raise, gather,
  return_injective, ◌>>=◌, >>=-eq-return,
}
use julep.Ir.{
  Merge, MergeKind, race_like, same_kind, Info, Node, node, Slot, absent, present, CaseSlot,
  no_cases, switch, Cases, end, case, slot_nodes, case_nodes, case_slot_nodes, children, info,
}
use julep.Contracts.{ToolManifest}
use julep.Validate.Diagnostic.{Diagnostic}
use julep.Derived.{
  both, in_group, is_par, flatten, flatten_slot, flatten_race_group, branch_admission, race_kind,
  race_merge, root_kind, chained, unless_chained,
}
use julep.Derived.Tree.{
  outside, inside, scan_from, scan_tree, scan_branch, scan_slot, scan_case_slot, scan_cases,
}
use julep.Derived.Flatten.{same_kind_self}

both_assoc : {A : Type 0} (x y z : Result (List A)) → both (both x y) z ≡ both x (both y z)
both_assoc (return x) (return y) (return z) = ap return (append_assoc x y z)
both_assoc (return x) (return y) (raise e) = refl
both_assoc (return x) (raise e) z = refl
both_assoc (raise e) y z = refl

both-nil : {A : Type 0} (x : Result (List A)) → both x (return []) ≡ x
both-nil (return x) = ap return (append-nil x)
both-nil (raise e) = refl

both-nil_left : {A : Type 0} (x : Result (List A)) → both (return []) x ≡ x
both-nil_left (return x) = refl
both-nil_left (raise e) = refl

gather-append :
    {A B : Type 0} (f : A → Result (List B)) (xs ys : List A)
    → gather f (xs ++ ys) ≡ both (gather f xs) (gather f ys)
gather-append f [] ys = sym (both-nil_left (gather f ys))
gather-append f (x ∷ xs) ys =
    ap (both (f x)) (gather-append f xs ys) ∙ sym (both_assoc (f x) (gather f xs) (gather f ys))

module _ (m : ToolManifest) where
  -- What the loop over the branches of a group adds for one of them.
  abbrev pub per_branch : Node → Result (List Diagnostic)
  per_branch n = both (branch_admission m n) (scan_tree m (outside none) n)

  abbrev pub tree_groups :
      Option MergeKind → Node → (below : Result (List Diagnostic)) → Result (List Diagnostic)
  tree_groups none n below = below
  tree_groups (some k) n below = do branches ← flatten_race_group n; gather per_branch branches

  -- One step of `scan` as the source has it.
  abbrev pub tree_step : Option MergeKind → Node → Result (List Diagnostic)
  tree_step in_chain_of n =
      tree_groups (root_kind (info n) in_chain_of) n
        (gather (λ c. scan_tree m (outside (race_kind (info n))) c) (children n))

  mutual
    unfolding scan_tree flatten

    pub scan-chain :
        (k : MergeKind) (n : Node) (bs : List Node)
        → flatten k n ≡ return bs
        → scan_tree m (inside k) n ≡ gather per_branch bs
    scan-chain k (node i l r b p c d) bs h = elim (Bool-cases (in_group k i)) [
      | inl e ↦
          (let h2 : both (flatten_slot k l) (flatten_slot k r) ≡ return bs = rw e at h in
            let (xs, el, hl) = >>=-eq-return (flatten_slot k l) _ h2 in
            let (ys, er, hr) = >>=-eq-return (flatten_slot k r) _ hl in
            rw
              (e, slot-chain k l xs el, slot-chain k r ys er, ← return_injective hr, gather-append))
      | inr e ↦
          (let h2 : return (node i l r b p c d ∷ []) ≡ return bs = rw e at h in
            rw (e, ← return_injective h2, both-nil))
    ]

    slot-chain :
        (k : MergeKind) (s : Slot) (bs : List Node)
        → flatten_slot k s ≡ return bs
        → scan_branch m k s ≡ gather per_branch bs
    slot-chain k absent bs h = cc
    slot-chain k (present n) bs h = scan-chain k n bs h

race_merge-eq :
    (par : Bool) (o : Option Merge) (k : MergeKind)
    → race_merge par o ≡ some k
    → (par ≡ true) × (race_like k ≡ true) × (m : Merge) × (o ≡ some m) × (m.kind ≡ k)
race_merge-eq par none k h = cc
race_merge-eq true (some m) k h = elim (Bool-cases (race_like m.kind)) [
  | inl e ↦
      (let same : some m.kind ≡ some k = rw e at h in
        (refl, ap race_like (sym (some_injective same)) ∙ e, m, refl, some_injective same))
  | inr e ↦ (let none_some : none ≡ some k = rw e at h in cc)
]
race_merge-eq false (some m) k h = cc

unless_chained-eq :
    (o chain : Option MergeKind) (k : MergeKind) → unless_chained o chain ≡ some k → o ≡ some k
unfolding same_kind
unless_chained-eq none chain k h = h
unless_chained-eq (some j) chain k h = elim (Bool-cases (chained j chain)) [
  | inl e ↦ (let none_some : none ≡ some k = rw e at h in cc)
  | inr e ↦ rw e at h
]

-- The root of a group is a `par` that merges as the group does.
pub root-in_group :
    (i : Info) (chain : Option MergeKind) (k : MergeKind)
    → root_kind i chain ≡ some k
    → (in_group k i ≡ true) × (m : Merge) × (i.merge ≡ some m) × (m.kind ≡ k)
unfolding same_kind
root-in_group i chain k h =
    let (a, b, m, e, f) =
      race_merge-eq (is_par i.op) i.merge k (unless_chained-eq (race_kind i) chain k h) in
    (rw (a, e, f, same_kind_self k), m, e, f)

pub flatten-root :
    (n : Node) (chain : Option MergeKind) (k : MergeKind)
    → root_kind (info n) chain ≡ some k
    → flatten_race_group n ≡ flatten k n
unfolding flatten_race_group same_kind
flatten-root n chain k h = let (a, m, e, f) = root-in_group (info n) chain k h in rw (e, f)

module _ (m : ToolManifest) where
  slot-gather :
      (chain : Option MergeKind) (s : Slot)
      → scan_slot m (outside chain) s ≡ gather (λ c. scan_tree m (outside chain) c) (slot_nodes s)
  unfolding scan_tree
  slot-gather chain absent = refl
  slot-gather chain (present n) = sym (both-nil (scan_tree m (outside chain) n))

  cases-gather :
      (chain : Option MergeKind) (cs : Cases)
      → scan_cases m chain cs ≡ gather (λ c. scan_tree m (outside chain) c) (case_nodes cs)
  unfolding scan_tree
  cases-gather chain end = refl
  cases-gather chain (case k n cs) =
      ap (both (scan_tree m (outside chain) n)) (cases-gather chain cs)

  case_slot-gather :
      (chain : Option MergeKind) (c : CaseSlot)
      → scan_case_slot m chain c ≡ gather (λ c. scan_tree m (outside chain) c) (case_slot_nodes c)
  unfolding scan_tree
  case_slot-gather chain no_cases = refl
  case_slot-gather chain (switch cs) = cases-gather chain cs

  group-exact :
      (n : Node) (chain : Option MergeKind) (k : MergeKind) (one : Result (List Diagnostic))
      → root_kind (info n) chain ≡ some k
      → ((bs : List Node) → flatten k n ≡ return bs → one ≡ gather (per_branch m) bs)
      → (do _ ← flatten_race_group n; one)
        ≡ (do bs ← flatten_race_group n; gather (per_branch m) bs)
  group-exact n chain k one h f = rw (flatten-root n chain k h) (go (flatten k n) f)
    where
      go :
          (r : Result (List Node))
          → ((bs : List Node) → r ≡ return bs → one ≡ gather (per_branch m) bs)
          → (do _ ← r; one) ≡ (do bs ← r; gather (per_branch m) bs)
      go (return bs) f = f bs refl
      go (raise e) f = refl

  children-gather :
      (i : Info) (l r b p d : Slot) (c : CaseSlot) (chain : Option MergeKind)
      → both (scan_slot m (outside chain) l) (
          both (scan_slot m (outside chain) r) (
            both (scan_slot m (outside chain) b) (
              both
                (scan_slot m (outside chain) p)
                (both (scan_case_slot m chain c) (scan_slot m (outside chain) d)))))
        ≡ gather (λ k. scan_tree m (outside chain) k) (children (node i l r b p c d))
  unfolding scan_tree children
  children-gather i l r b p d c chain =
      rw
        (
          slot-gather chain l,
          slot-gather chain r,
          slot-gather chain b,
          slot-gather chain p,
          case_slot-gather chain c,
          slot-gather chain d,
        )
        (sym (simp (gather-append)))

-- The one traversal of `scan` adds what the two loops of the source add, with the same exception if
-- there is one: at the root of a group, for each of its flattened branches in order, the admission
-- of the branch and the scan_tree of it; elsewhere the scans of the children.
pub scan_exact :
    (m : ToolManifest) (chain : Option MergeKind) (n : Node)
    → scan_tree m (outside chain) n ≡ tree_step m chain n
unfolding scan_tree same_kind
scan_exact m chain (node i l r b p c d) = go (root_kind i chain) refl
  where
    n : Node
    n = node i l r b p c d

    go :
        (o : Option MergeKind)
        → root_kind i chain ≡ o
        → scan_from o n
            (λ k. both (scan_branch m k l) (scan_branch m k r))
            (both (scan_slot m (outside (race_kind i)) l) (
              both (scan_slot m (outside (race_kind i)) r) (
                both (scan_slot m (outside (race_kind i)) b) (
                  both (scan_slot m (outside (race_kind i)) p) (
                    both
                      (scan_case_slot m (race_kind i) c)
                      (scan_slot m (outside (race_kind i)) d))))))
          ≡ tree_groups m o n (gather (λ k. scan_tree m (outside (race_kind i)) k) (children n))
    go none e = children-gather m i l r b p d c (race_kind i)
    go (some k) e = group-exact m n chain k _ e (λ bs h. chain-branches bs h)
      where
        chain-branches :
            (bs : List Node)
            → flatten k n ≡ return bs
            → both (scan_branch m k l) (scan_branch m k r) ≡ gather (per_branch m) bs
        chain-branches bs h =
            let (g, mm, a, b) = root-in_group i chain k e in rw g at (scan-chain m k n bs h)
