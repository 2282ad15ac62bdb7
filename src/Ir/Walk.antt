-- ===== src/Ir/Walk.antt =====
-- The traversal of julep/ir.py: what `walk` visits, and induction over a tree by its children.
use julep.Prelude.{
  List, [], suc, ◌≤◌, length, length-append, arith, In, here, there, collect, ap, ◌≡◌, refl, ◌∷◌,
  All, All-append, collect, collect-append, append-nil,
}
use julep.Ir.{
  Node, node, Slot, absent, present, CaseSlot, no_cases, switch, Cases, end, case, slot_nodes,
  case_nodes, case_slot_nodes, children, walk, walk_slot, walk_case_slot, walk_cases,
}

walk_slot-collect : (s : Slot) → walk_slot s ≡ collect walk (slot_nodes s)
unfolding walk
walk_slot-collect absent = refl
walk_slot-collect (present n) = rw append-nil

walk_cases-collect : (cs : Cases) → walk_cases cs ≡ collect walk (case_nodes cs)
unfolding walk
walk_cases-collect end = refl
walk_cases-collect (case k n cs) = rw (walk_cases-collect cs)

walk_case_slot-collect : (c : CaseSlot) → walk_case_slot c ≡ collect walk (case_slot_nodes c)
unfolding walk
walk_case_slot-collect no_cases = refl
walk_case_slot-collect (switch cs) = walk_cases-collect cs

-- `walk` is the node, then the walks of its children in order.
pub walk-children : (n : Node) → walk n ≡ n ∷ collect walk (children n)
unfolding walk children
walk-children (node i l r b p c d) =
    simp (collect-append, walk_slot-collect, walk_case_slot-collect)

module _ {ℓ} {P : Node → Type ℓ} (step : (n : Node) → All P (children n) → P n) where
  mutual
    unfolding children

    ind : (n : Node) → P n
    ind (node i l r b p c d) = step (node i l r b p c d) (
        All-append P (slot_nodes l) _ (ind_slot l) (
          All-append P (slot_nodes r) _ (ind_slot r) (
            All-append P (slot_nodes b) _ (ind_slot b) (
              All-append P (slot_nodes p) _ (ind_slot p)
                (All-append P (case_slot_nodes c) _ (ind_case_slot c) (ind_slot d))))))

    ind_slot : (s : Slot) → All P (slot_nodes s)
    ind_slot absent = tt
    ind_slot (present n) = (ind n, tt)

    ind_case_slot : (c : CaseSlot) → All P (case_slot_nodes c)
    ind_case_slot no_cases = tt
    ind_case_slot (switch cs) = ind_cases cs

    ind_cases : (cs : Cases) → All P (case_nodes cs)
    ind_cases end = tt
    ind_cases (case k n cs) = (ind n, ind_cases cs)

  -- A property that passes from the children to the node holds of every node.
  pub Node-induction : (n : Node) → P n
  Node-induction n = ind n

length-collect :
    {A B : Type 0} (g : A → List B) {k : A} {xs : List A}
    → In k xs
    → length (g k) ≤ length (collect g xs)
length-collect g {k = k} {xs = []} m = elim m [ ]
length-collect g {k = k} {xs = x ∷ xs} here = omega (arith, length-append (g x) (collect g xs))
length-collect g {k = k} {xs = x ∷ xs} (there m) =
    omega (arith, length-append (g x) (collect g xs), length-collect g m)

-- A child is smaller.
pub walk_shorter : (n k : Node) → In k (children n) → suc (length (walk k)) ≤ length (walk n)
walk_shorter n k m = omega (arith, ap length (walk-children n), length-collect walk m)
