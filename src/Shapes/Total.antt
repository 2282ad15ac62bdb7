-- ===== src/Shapes/Total.antt =====
-- When the analysis of julep/shapes.py returns a shape.
use julep.Prelude.{
  All-of_In, ◌≡◌, refl, true, ◌&&◌, List, [], ◌∷◌, ◌++◌, All, All-append_left, All-append_right,
  return, ◌>>=◌, arith,
}
use julep.Kinds.{Op, Shape, dataflow, branching, feedback, shape_join}
use julep.Ir.{
  Node, node, Slot, absent, present, CaseSlot, no_cases, switch, Cases, end, case, slot_nodes,
  case_nodes, children,
}
use julep.Ir.Walk.{Node-induction}
use julep.Shapes.{
  Mode, step_shape, shape_at, shape, shape_slot, shape_fan_out, shape_default, shape_case_slot,
  shape_cases,
}
use julep.Shapes.Executed.{
  alternatives, inner_at, Executes, self, inside, HasBranches, branches_at, is_present, All-inner,
}

module _ (mode : Mode) where
  abbrev Returns : Node → Type 0
  Returns n = (s : Shape) × (shape mode n ≡ return s)

  slot-Returns :
      (l : Slot)
      → is_present l ≡ true
      → All Returns (slot_nodes l)
      → (s : Shape) × (shape_slot mode l ≡ return s)
  unfolding shape
  slot-Returns absent h k = cc
  slot-Returns (present n) h k = k.0

  default-Returns :
      (l : Slot)
      → All Returns (slot_nodes l)
      → (xs : List Shape) × (shape_default mode l ≡ return xs)
  unfolding shape
  default-Returns absent k = ([], refl)
  default-Returns (present n) k = let (s, e) = k.0 in (s ∷ [], rw e)

  fan_out-Returns :
      (l : Slot) → All Returns (slot_nodes l) → (s : Shape) × (shape_fan_out mode l ≡ return s)
  unfolding shape
  fan_out-Returns absent k = (dataflow, refl)
  fan_out-Returns (present n) k = let (s, e) = k.0 in (shape_join (dataflow ∷ s ∷ []), rw e)

  cases-Returns :
      (cs : Cases)
      → All Returns (case_nodes cs)
      → (xs : List Shape) × (shape_cases mode cs ≡ return xs)
  unfolding shape
  cases-Returns end k = ([], refl)
  cases-Returns (case key n cs) k =
      let (s, e) = k.0 in let (xs, e') = cases-Returns cs k.1 in (s ∷ xs, rw (e, e'))

  two-Returns :
      (pre : List Shape) (l r : Slot)
      → (is_present l && is_present r) ≡ true
      → All Returns (slot_nodes l ++ slot_nodes r)
      → (s : Shape) × ((do
        x ← shape_slot mode l
        y ← shape_slot mode r
        return (shape_join (pre ++ (x ∷ y ∷ []))))
          ≡ return s)
  two-Returns pre l r h k =
      let (x, e) = slot-Returns l (ground arith) (All-append_left Returns (slot_nodes l) _ k) in
      let (y, e') = slot-Returns r (ground arith) (All-append_right Returns (slot_nodes l) _ k) in
      (shape_join (pre ++ (x ∷ y ∷ [])), rw (e, e'))

  at-Returns :
      (op : Op) (st : Shape) (l r b d : Slot) (c : CaseSlot)
      → branches_at op (is_present l) (is_present r) (is_present b) c ≡ true
      → All Returns (
          inner_at op
            (slot_nodes l ++ slot_nodes r)
            (slot_nodes b)
            (alternatives c (slot_nodes l ++ slot_nodes r) (slot_nodes d)))
      → (s : Shape) × (shape_at op st
            (shape_slot mode l)
            (shape_slot mode r)
            (shape_slot mode b)
            (shape_fan_out mode b)
            (shape_case_slot mode c)
            (shape_default mode d)
          ≡ return s)
  unfolding shape_at shape
  at-Returns Op.ident st l r b d c h k = (_, refl)
  at-Returns Op.seq st l r b d c h k = two-Returns [] l r h k
  at-Returns Op.par st l r b d c h k = two-Returns (dataflow ∷ []) l r h k
  at-Returns Op.each st l r b d c h k = fan_out-Returns b k
  at-Returns Op.iter_up_to st l r b d c h k =
      let (x, e) = slot-Returns b h k in (shape_join (feedback ∷ x ∷ []), rw e)
  at-Returns Op.alt st l r b d no_cases h k = two-Returns (branching ∷ []) l r h k
  at-Returns Op.alt st l r b d (switch cs) h k =
      let (xs, e) = cases-Returns cs (All-append_left Returns (case_nodes cs) _ k) in
      let (ys, e') = default-Returns d (All-append_right Returns (case_nodes cs) _ k) in
      (shape_join (branching ∷ (xs ++ ys)), rw (e, e'))
  at-Returns _ st l r b d c h k = (_, refl)

  abbrev AllComplete : Node → Type 0
  AllComplete n = (m : Node) → Executes n m → HasBranches m

  total : (n : Node) → AllComplete n → Returns n
  unfolding shape
  total = Node-induction {P = λ n. AllComplete n → Returns n} step
    where
      step :
          (n : Node) → All (λ k. AllComplete k → Returns k) (children n) → AllComplete n → Returns n
      step (node i l r b p c d) h ok =
          at-Returns i.op (step_shape mode i.step) l r b d c (ok _ (self _)) (
            All-of_In (λ k. AllComplete k → Returns k) Returns _
              (λ k e f. f (λ m x. ok m (inside (node i l r b p c d) k m e x)))
              (All-inner _ (node i l r b p c d) h))

-- The analysis returns a shape if every node that it evaluates has the children its operator needs.
shape_total :
    (mode : Mode) (n : Node)
    → ((m : Node) → Executes n m → HasBranches m)
    → (s : Shape) × (shape mode n ≡ return s)
shape_total mode n h = total mode n h
