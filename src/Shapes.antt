-- ===== src/Shapes.antt =====
-- julep/shapes.py: the cost class of a flow, as the parent's scheduler sees it (surface) and as
-- budgeting sees it (closed). A missing required child is the `AttributeError` of `None.op`.
pub mod Executed
pub mod Order
pub mod Bounded
pub mod Total
use julep.Prelude.{
  Option, none, some, List, [], ◌∷◌, ◌++◌, Result, return, raise, attribute_error, ◌>>=◌,
}
use julep.Kinds.{Op, Shape, pipeline, dataflow, branching, feedback, staged, agent, shape_join}
use julep.Ir.{
  Step, call, think, sub, Node, node, Slot, absent, present, CaseSlot, no_cases, switch, Cases, end,
  case,
}

pub data Mode : Type 0 where
  surface closed : Mode

abbrev pub step_shape : Mode → Option Step → Shape
step_shape closed (some (sub s)) = s.contract.shape
step_shape _ _ = pipeline

-- The fold at one node, from the shapes of its children.
unfoldable pub shape_at :
    Op
    → (step : Shape) (left right body fan_out : Result Shape)
    → (cases : Option (Result (List Shape))) (default : Result (List Shape)) → Result Shape
shape_at Op.ident st l r b f c d = return pipeline
shape_at Op.arr st l r b f c d = return pipeline
shape_at Op.prim st l r b f c d = return st
shape_at Op.seq st l r b f c d = do x ← l; y ← r; return (shape_join (x ∷ y ∷ []))
shape_at Op.par st l r b f c d = do x ← l; y ← r; return (shape_join (dataflow ∷ x ∷ y ∷ []))
shape_at Op.each st l r b f c d = f
shape_at Op.alt st l r b f (some branches) d = do
  xs ← branches
  ys ← d
  return (shape_join (branching ∷ (xs ++ ys)))
shape_at Op.alt st l r b f none d = do x ← l; y ← r; return (shape_join (branching ∷ x ∷ y ∷ []))
shape_at Op.iter_up_to st l r b f c d = do x ← b; return (shape_join (feedback ∷ x ∷ []))
shape_at Op.eval_plan st l r b f c d = return staged
shape_at Op.app st l r b f c d = return agent
shape_at Op.loop st l r b f c d = return agent

unfoldable mutual
  unfolding shape_at

  pub shape : Mode → Node → Result Shape
  shape mode (node i l r b p c d) =
      shape_at i.op (step_shape mode i.step) (shape_slot mode l) (shape_slot mode r)
        (shape_slot mode b) (shape_fan_out mode b) (shape_case_slot mode c) (shape_default mode d)

  -- `_shape(cast(Node, n.left), mode)`
  pub shape_slot : Mode → Slot → Result Shape
  shape_slot mode absent = raise attribute_error
  shape_slot mode (present n) = shape mode n

  -- The body of `each`, which may be missing.
  pub shape_fan_out : Mode → Slot → Result Shape
  shape_fan_out mode absent = return dataflow
  shape_fan_out mode (present n) = do x ← shape mode n; return (shape_join (dataflow ∷ x ∷ []))

  pub shape_default : Mode → Slot → Result (List Shape)
  shape_default mode absent = return []
  shape_default mode (present n) = do x ← shape mode n; return (x ∷ [])

  pub shape_case_slot : Mode → CaseSlot → Option (Result (List Shape))
  shape_case_slot mode no_cases = none
  shape_case_slot mode (switch cs) = some (shape_cases mode cs)

  pub shape_cases : Mode → Cases → Result (List Shape)
  shape_cases mode end = return []
  shape_cases mode (case k n cs) = do x ← shape mode n; xs ← shape_cases mode cs; return (x ∷ xs)

unfoldable pub surface_shape : Node → Result Shape
unfolding shape
surface_shape n = shape surface n

unfoldable pub closed_shape : Node → Result Shape
unfolding shape
closed_shape n = shape closed n
