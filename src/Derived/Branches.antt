-- ===== src/Derived/Branches.antt =====
-- The branches that `flatten_race_group` of julep/derived.py gives are nodes of the flow.
use julep.Prelude.{
  ◌≡◌, refl, true, Bool-cases, inl, inr, List, All, All-append, In, Result, return,
  return_injective, >>=-eq-return, In-append_left, In-append_right, here,
}
use mathlib.Core.Path.{subst}
use julep.Ir.{
  Info, MergeKind, Node, node, Slot, absent, present, CaseSlot, children, info, slot_nodes,
}
use julep.Derived.{both, in_group, flatten, flatten_slot}

In-slot : (s : Slot) (x : Node) → s ≡ present x → In x (slot_nodes s)
In-slot s x e = rw e here

module _ (i : Info) (l r b p : Slot) (c : CaseSlot) (d : Slot) (x : Node) where
  left-In : l ≡ present x → In x (children (node i l r b p c d))
  unfolding children
  left-In e = In-append_left (slot_nodes l) _ (In-slot l x e)

  right-In : r ≡ present x → In x (children (node i l r b p c d))
  unfolding children
  right-In e = In-append_right (slot_nodes l) _ (In-append_left (slot_nodes r) _ (In-slot r x e))

module _ (P : Node → Type 0) where
  both-All :
      (l r : Result (List Node))
      → ((xs : List Node) → l ≡ return xs → All P xs)
      → ((xs : List Node) → r ≡ return xs → All P xs)
      → (bs : List Node) → both l r ≡ return bs
      → All P bs
  both-All l r hl hr bs e =
      let (xs, el, rest) = >>=-eq-return l _ e in
      let (ys, er, eb) = >>=-eq-return r _ rest in
      subst (All P) (return_injective eb) (All-append P xs ys (hl xs el) (hr ys er))

  module _ (down : (n k : Node) → P n → In k (children n) → P k) where
    mutual
      unfolding flatten

      -- What holds of a node and passes down holds of the branches.
      pub flatten-All :
          (k : MergeKind) (n : Node) → P n → (bs : List Node) → flatten k n ≡ return bs → All P bs
      flatten-All k (node i l r b p c d) s bs e = elim (Bool-cases (in_group k i)) [
        | inl h ↦
            both-All _ _
              (slot-All k l (λ x q. down (node i l r b p c d) x s (left-In i l r b p c d x q)))
              (slot-All k r (λ x q. down (node i l r b p c d) x s (right-In i l r b p c d x q))) bs
              (rw h at e)
        | inr h ↦ subst (All P) (return_injective (rw h at e)) (s, tt)
      ]

      slot-All :
          (k : MergeKind) (s : Slot)
          → ((x : Node) → s ≡ present x → P x)
          → (bs : List Node) → flatten_slot k s ≡ return bs
          → All P bs
      slot-All k absent h bs e = cc
      slot-All k (present n) h bs e = flatten-All k n (h n refl) bs e

    -- The branches of a group are below it.
    pub group-All :
        (k : MergeKind) (n : Node)
        → in_group k (info n) ≡ true
        → ((x : Node) → In x (children n) → P x)
        → (bs : List Node) → flatten k n ≡ return bs
        → All P bs
    unfolding flatten
    group-All k (node i l r b p c d) g h bs e =
        both-All _ _ (slot-All k l (λ x q. h x (left-In i l r b p c d x q)))
          (slot-All k r (λ x q. h x (right-In i l r b p c d x q))) bs (rw g at e)
