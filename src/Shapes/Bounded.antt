-- ===== src/Shapes/Bounded.antt =====
-- What a closed shape says of the nodes that are evaluated (julep/shapes.py, as julep/staged.py relies
-- on it).
use julep.Prelude.{
  In-All, ◌≡◌, Option, List, [], ◌∷◌, ◌++◌, All, All-append, All-append_left, All-append_right,
  All-map, Result, return, raise, attribute_error, ◌>>=◌, >>=-eq-return, arith,
}
use julep.Kinds.{Op, Shape, pipeline, dataflow, branching, feedback, shape_join}
use julep.Kinds.Join.{◌⊑◌, shape_join_upper}
use julep.Ir.{
  Step, Node, node, Slot, absent, present, CaseSlot, no_cases, switch, Cases, end, case, slot_nodes,
  case_nodes, info,
}
use julep.Shapes.{
  Mode, closed, step_shape, shape_at, shape, shape_slot, shape_fan_out, shape_default,
  shape_case_slot, shape_cases, closed_shape,
}
use julep.Shapes.Executed.{alternatives, inner_at, inner, Executes, self, inside}

module _ (mode : Mode) (s : Shape) where
  -- `k` has a shape, which is no costlier than `s`.
  abbrev Covered : Node → Type 0
  Covered k = (t : Shape) × (shape mode k ≡ return t) × (t ⊑ s)

  slot-Covered :
      (l : Slot) (x : Shape) → shape_slot mode l ≡ return x → x ⊑ s → All Covered (slot_nodes l)
  unfolding shape
  slot-Covered absent x h k = cc
  slot-Covered (present n) x h k = ((x, h, k), tt)

  default-Covered :
      (l : Slot) (xs : List Shape)
      → shape_default mode l ≡ return xs
      → All (λ x. x ⊑ s) xs
      → All Covered (slot_nodes l)
  unfolding shape
  default-Covered absent xs h k = tt
  default-Covered (present n) [] h k =
      let (x, e, f) = >>=-eq-return (shape mode n) (λ x. return (x ∷ [])) h in cc
  default-Covered (present n) (y ∷ ys) h k =
      let (x, e, f) = >>=-eq-return (shape mode n) (λ x. return (x ∷ [])) h in
      ((x, e, ground (arith, k.0)), tt)

  cases-Covered :
      (cs : Cases) (xs : List Shape)
      → shape_cases mode cs ≡ return xs
      → All (λ x. x ⊑ s) xs
      → All Covered (case_nodes cs)
  unfolding shape
  cases-Covered end xs h k = tt
  cases-Covered (case key n cs) [] h k =
      let (x, e, f) = >>=-eq-return (shape mode n) _ h in
      let (ys, e', f') = >>=-eq-return (shape_cases mode cs) _ f in cc
  cases-Covered (case key n cs) (z ∷ zs) h k =
      let (x, e, f) = >>=-eq-return (shape mode n) _ h in
      let (ys, e', f') = >>=-eq-return (shape_cases mode cs) _ f in
      ((x, e, ground (arith, k.0)), cases-Covered cs zs (cc) k.1)

  -- The two branches of a node whose shape joins `pre` with them.
  two-Covered :
      (pre : List Shape) (l r : Slot)
      → (do x ← shape_slot mode l; y ← shape_slot mode r; return (shape_join (pre ++ (x ∷ y ∷ []))))
        ≡ return s
      → All Covered (slot_nodes l ++ slot_nodes r)
  two-Covered pre l r h =
      let (x, e, f) = >>=-eq-return (shape_slot mode l) _ h in
      let (y, e', f') = >>=-eq-return (shape_slot mode r) _ f in
      let up =
        All-append_right (λ z. z ⊑ shape_join (pre ++ (x ∷ y ∷ []))) pre _
          (shape_join_upper (pre ++ (x ∷ y ∷ []))) in
      All-append Covered (slot_nodes l) (slot_nodes r)
        (slot-Covered l x e (ground (arith, up.0, f')))
        (slot-Covered r y e' (ground (arith, up.1.0, f')))

  one-Covered :
      (floor : Shape) (b : Slot)
      → (do x ← shape_slot mode b; return (shape_join (floor ∷ x ∷ []))) ≡ return s
      → All Covered (slot_nodes b)
  one-Covered floor b h =
      let (x, e, f) = >>=-eq-return (shape_slot mode b) _ h in
      let up = shape_join_upper (floor ∷ x ∷ []) in slot-Covered b x e (ground (arith, up.1.0, f))

  fan_out-Covered : (b : Slot) → shape_fan_out mode b ≡ return s → All Covered (slot_nodes b)
  unfolding shape
  fan_out-Covered absent h = tt
  fan_out-Covered (present n) h = one-Covered dataflow (present n) h

  alt-Covered :
      (l r d : Slot) (c : CaseSlot)
      → shape_at Op.alt pipeline
          (shape_slot mode l)
          (shape_slot mode r)
          (raise attribute_error)
          (raise attribute_error)
          (shape_case_slot mode c)
          (shape_default mode d)
        ≡ return s
      → All Covered (alternatives c (slot_nodes l ++ slot_nodes r) (slot_nodes d))
  unfolding shape shape_at
  alt-Covered l r d no_cases h = two-Covered (branching ∷ []) l r h
  alt-Covered l r d (switch cs) h =
      let (xs, e, f) = >>=-eq-return (shape_cases mode cs) _ h in
      let (ys, e', f') = >>=-eq-return (shape_default mode d) _ f in
      let up = shape_join_upper (branching ∷ (xs ++ ys)) in
      let all : All (λ z. z ⊑ s) (xs ++ ys) =
        covers (xs ++ ys) (shape_join (branching ∷ (xs ++ ys))) f' up.1 in
      All-append Covered (case_nodes cs) (slot_nodes d)
        (cases-Covered cs xs e (All-append_left (λ z. z ⊑ s) xs ys all))
        (default-Covered d ys e' (All-append_right (λ z. z ⊑ s) xs ys all))
    where
      covers :
          (zs : List Shape) (j : Shape)
          → return j ≡ return s
          → All (λ z. z ⊑ j) zs
          → All (λ z. z ⊑ s) zs
      covers zs j e h = All-map (λ z. z ⊑ j) (λ z. z ⊑ s) (λ z k. ground (arith, e)) zs h

  at-Covered :
      (op : Op) (st : Shape) (l r b d : Slot) (c : CaseSlot)
      → shape_at op st
          (shape_slot mode l)
          (shape_slot mode r)
          (shape_slot mode b)
          (shape_fan_out mode b)
          (shape_case_slot mode c)
          (shape_default mode d)
        ≡ return s
      → All Covered (
          inner_at op
            (slot_nodes l ++ slot_nodes r)
            (slot_nodes b)
            (alternatives c (slot_nodes l ++ slot_nodes r) (slot_nodes d)))
  unfolding shape_at shape
  at-Covered Op.prim st l r b d c h = tt
  at-Covered Op.seq st l r b d c h = two-Covered [] l r h
  at-Covered Op.par st l r b d c h = two-Covered (dataflow ∷ []) l r h
  at-Covered Op.each st l r b d c h = fan_out-Covered b h
  at-Covered Op.iter_up_to st l r b d c h = one-Covered feedback b h
  at-Covered Op.alt st l r b d no_cases h = two-Covered (branching ∷ []) l r h
  at-Covered Op.alt st l r b d (switch cs) h = alt-Covered l r d (switch cs) h
  at-Covered _ st l r b d c h = tt

  -- Whatever a node evaluates has a shape, no costlier than the node's.
  inner-Covered : (n : Node) → shape mode n ≡ return s → All Covered (inner n)
  unfolding shape
  inner-Covered (node i l r b p c d) h = at-Covered i.op (step_shape mode i.step) l r b d c h

abbrev BoundedAt : Op → Option Step → Type 0
BoundedAt Op.prim st = step_shape closed st ⊑ feedback
BoundedAt Op.eval_plan st = ⊥
BoundedAt Op.app st = ⊥
BoundedAt Op.loop st = ⊥
BoundedAt _ st = Unit

-- A node that stages no plan, opens no agent and no session, and whose sub-flow promises as much.
abbrev pub IsBounded : Node → Type 0
IsBounded n = BoundedAt (info n).op (info n).step

at-bounded :
    (op : Op) (step : Option Step) (l r b f : Result Shape) (c : Option (Result (List Shape)))
    (d : Result (List Shape)) (s : Shape)
    → shape_at op (step_shape closed step) l r b f c d ≡ return s
    → s ⊑ feedback
    → BoundedAt op step
unfolding shape_at
at-bounded Op.eval_plan step l r b f c d s h k = ground arith
at-bounded Op.app step l r b f c d s h k = ground arith
at-bounded Op.loop step l r b f c d s h k = ground arith
at-bounded Op.prim step l r b f c d s h k = ground (arith, h)
at-bounded _ step l r b f c d s h k = tt

self-IsBounded : (n : Node) (s : Shape) → closed_shape n ≡ return s → s ⊑ feedback → IsBounded n
unfolding closed_shape shape
self-IsBounded (node i l r b p c d) s h k = at-bounded i.op i.step _ _ _ _ _ _ s h k

-- A flow whose closed shape is at most Feedback evaluates no plan, agent or session loop, and no
-- sub-flow whose contract is costlier, at any depth.
pub closed_shape-IsBounded :
    {n m : Node} (s : Shape) → closed_shape n ≡ return s → s ⊑ feedback → Executes n m → IsBounded m
unfolding closed_shape
closed_shape-IsBounded s h k (self n) = self-IsBounded n s h k
closed_shape-IsBounded s h k (inside n j m e rest) =
    let (t, et, le) = In-All (Covered closed s) (inner-Covered closed s n h) e in
    closed_shape-IsBounded t et (omega arith) rest
