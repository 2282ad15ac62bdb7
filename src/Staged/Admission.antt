-- ===== src/Staged/Admission.antt =====
-- `validate_plan` and `admit_plan` of julep/staged.py.
use julep.Prelude.{
  ℕ, Text, Bool, true, false, not, ◌&&◌, is_some, ℤ, ltb_ℤ, get, Option, none, some, List, [], ◌∷◌,
  ◌++◌, collect, Result, return, raise, plan_rejected, ◌>>=◌,
}
use julep.Json.{Json}
use julep.Kinds.{Op, Shape, feedback, shape_leq}
use julep.Ir.{Step, call, sub, toolref_key, Node, info, walk}
use julep.Contracts.{ToolManifest}
use julep.Shapes.{closed_shape}
use julep.Validate.Diagnostic.{
  Diagnostic, err, flag, blocking, plan_too_rich, plan_dynamic_fanout, plan_tool_ungranted,
  plan_sub_too_rich, plan_budget,
}
use julep.Validate.Gate.{by_root, validate}
use julep.Capabilities.{Budget, CapabilityManifest}
use julep.Staged.{estimate_cost}
use julep.Staged.Bind.{bind_plan}

abbrev pub is_each : Op → Bool
is_each Op.each = true
is_each _ = false

-- `shape_rank(s) > shape_rank(Shape.FEEDBACK)`
abbrev pub too_rich : Shape → Bool
too_rich s = not (shape_leq s feedback)

-- The grants of one step.
unfoldable pub step_rules : CapabilityManifest → Text → Option Step → List Diagnostic
step_rules parent id (some (call s)) =
    flag (parent.has_tools && not (is_some (get (toolref_key s.tool) parent.tools)))
      (err plan_tool_ungranted id)
step_rules parent id (some (sub s)) = flag (too_rich s.contract.shape) (err plan_sub_too_rich id)
step_rules parent id _ = []

abbrev pub cost_limit : Option Budget → Option ℤ
cost_limit none = none
cost_limit (some b) = b.cost

-- `est > parent.budget.cost`
abbrev pub over_budget : Option ℤ → ℤ → Bool
over_budget none est = false
over_budget (some limit) est = ltb_ℤ limit est

module _ (registered : List Text) (reserved : Json → List Text)
    (incompatible : Option Json → Option Json → Bool) (unit : ℕ) where
  -- The rules on a plan whose calls are bound.
  abbrev pub plan_rules : Node → Shape → CapabilityManifest → List Diagnostic
  plan_rules n s parent =
      flag (too_rich s) (err plan_too_rich (info n).id)
      ++ (collect (λ k. flag (is_each (info k).op) (err plan_dynamic_fanout (info k).id)) (walk n)
          ++ (collect (λ k. step_rules parent (info k).id (info k).step) (walk n)
              ++ flag (over_budget (cost_limit parent.budget) (estimate_cost unit n))
                  (err plan_budget (info n).id)))

  abbrev pub check_plan :
      Node → List Diagnostic → CapabilityManifest → Option ToolManifest → Result (List Diagnostic)
  check_plan n bound parent m = do
    ordinary ← validate registered reserved incompatible n m by_root
    s ← closed_shape n
    return (bound ++ (ordinary ++ plan_rules n s parent))

  abbrev unless_blocked : List Diagnostic → ToolManifest → Option ToolManifest
  unless_blocked [] m = some m
  unless_blocked (d ∷ ds) m = none

  unfoldable pub validate_plan :
      Node → CapabilityManifest → Option ToolManifest → Result (List Diagnostic)
  unfolding blocking
  validate_plan plan parent none = check_plan plan [] parent none
  validate_plan plan parent (some m) =
      let (checked, diags) = bind_plan plan m in
      check_plan checked diags parent (unless_blocked (blocking diags) m)

  abbrev pub reject_if : List Diagnostic → Node → Result Node
  reject_if [] n = return n
  reject_if (d ∷ ds) n = raise plan_rejected

  abbrev pub admit_bound : Node → CapabilityManifest → Option ToolManifest → Result Node
  admit_bound n parent m = do diags ← validate_plan n parent m; reject_if (blocking diags) n

  unfoldable pub admit_plan : Node → CapabilityManifest → Option ToolManifest → Result Node
  unfolding validate_plan blocking
  admit_plan plan parent none = admit_bound plan parent none
  admit_plan plan parent (some m) =
      let (n, diags) = bind_plan plan m in
      do ok ← reject_if (blocking diags) n; admit_bound ok parent (some m)
