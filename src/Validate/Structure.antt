-- ===== src/Validate/Structure.antt =====
-- `_check_structure` of julep/validate.py: what each operator needs and may carry.
-- `registered` is the registry of pures. `reserved` is the scan of a reply schema for controller
-- action keys (`_native_tools_reserved_output_properties`).
use julep.Prelude.{
  Text, Bool, true, false, not, ◌&&◌, ◌||◌, is_some, has_text, ℤ, pos, ltb_ℤ, Option, none, some,
  List, [], ◌∷◌, ◌++◌, Result, return, ◌>>=◌,
}
use julep.Json.{Json}
use julep.Kinds.{Op, ContextScope, summary, whole_session, feedback, shape_leq}
use julep.Ir.{
  Info, ContextPolicy, Node, node, Slot, absent, present, CaseSlot, no_cases, switch, Cases, end,
  case,
}
use julep.Shapes.{surface_shape}
use julep.Validate.Diagnostic.{
  Diagnostic, err, flag, is_prim, is_emit, prim_no_step, step_on_nonprim, alt_fields_on_nonalt,
  arr_args_on_nonarr, missing_branch, alt_switch_has_binary_branch, alt_switch_has_pred,
  alt_no_select, unknown_pure, alt_no_cases, alt_binary_has_select, alt_binary_has_default,
  alt_no_pred, arr_no_pure, arr_has_child, iter_no_body, iter_bad_bound, each_no_body,
  each_bad_bound, eval_no_plan, eval_plan_too_rich, app_no_controller, app_reserved_reply_key,
  app_ctx_no_budget, app_summary_no_summarizer,
}
use julep.Validate.Session.{has_slot, has_cases}
use julep.Validate.Args.{check_arr_args}

abbrev is_alt : Op → Bool
is_alt Op.alt = true
is_alt _ = false

abbrev takes_args : Op → Bool
takes_args Op.arr = true
takes_args Op.loop = true
takes_args _ = false

abbrev no_entries : Cases → Bool
no_entries end = true
no_entries (case k n cs) = false

-- `bound < 1`, where there is a bound.
abbrev pub below_one : Option ℤ → Bool
below_one none = false
below_one (some b) = ltb_ℤ b (pos 1)

abbrev wide_scope : ContextScope → Bool
wide_scope summary = true
wide_scope whole_session = true
wide_scope _ = false

abbrev is_summary : ContextScope → Bool
is_summary summary = true
is_summary _ = false

-- The rules on an agent's transcript: no implicit budget and no implicit summarizer.
abbrev pub ctx_rules : Option ContextPolicy → Option Text → Text → List Diagnostic
ctx_rules none summarizer id = []
ctx_rules (some c) summarizer id =
    flag (wide_scope c.scope && not (is_some c.max_tokens)) (err app_ctx_no_budget id)
    ++ flag (is_summary c.scope && not (is_some summarizer)) (err app_summary_no_summarizer id)

module _ (registered : List Text) (reserved : Json → List Text) where
  -- `name is not None and not is_registered(name)`
  abbrev unregistered : Option Text → Bool
  unregistered none = false
  unregistered (some name) = not (has_text name registered)

  -- A name that must be given, and be registered.
  abbrev pub named : Option Text → Diagnostic → Text → List Diagnostic
  named none missing id = missing ∷ []
  named (some name) missing id = flag (not (has_text name registered)) (err unknown_pure id)

  abbrev alt_rules : Info → (has_left has_right has_default : Bool) → CaseSlot → List Diagnostic
  alt_rules i l r d (switch cs) =
      flag (l || r) (err alt_switch_has_binary_branch i.id)
      ++ (flag (is_some i.pure) (err alt_switch_has_pred i.id)
          ++ (named i.select (err alt_no_select i.id) i.id
              ++ flag (no_entries cs) (err alt_no_cases i.id)))
  alt_rules i l r d no_cases =
      flag (not (l && r)) (err missing_branch i.id)
      ++ (flag (is_some i.select) (err alt_binary_has_select i.id)
          ++ (flag d (err alt_binary_has_default i.id) ++ named i.pure (err alt_no_pred i.id) i.id))

  abbrev reserved_reply : Info → Bool
  reserved_reply i = elim i.native_tools [
    | some true ↦ elim i.output_schema [
      | some (Json.obj fs) ↦ elim (reserved (Json.obj fs)) [ [] ↦ false | k ∷ ks ↦ true ]
      | _ ↦ false
    ]
    | _ ↦ false
  ]

  abbrev app_rules : Info → List Diagnostic
  app_rules i =
      flag (not (is_some i.controller)) (err app_no_controller i.id)
      ++ (flag (unregistered i.round_note) (err unknown_pure i.id)
          ++ (flag (reserved_reply i) (err app_reserved_reply_key i.id)
              ++ ctx_rules i.ctx i.summarizer i.id))

  -- A baked plan must have a surface shape of at most Feedback; `surface_shape` may raise.
  abbrev plan_rules : Info → Slot → Result (List Diagnostic)
  plan_rules i absent = return (flag (not (is_some i.controller)) (err eval_no_plan i.id))
  plan_rules i (present plan) = do
    s ← surface_shape plan
    return (flag (not (shape_leq s feedback)) (err eval_plan_too_rich i.id))

  -- The rules of one operator.
  unfoldable pub op_rules : Op → Info → (l r b p d : Slot) → CaseSlot → Result (List Diagnostic)
  unfolding has_text
  op_rules Op.seq i l r b p d c =
      return (flag (not (has_slot l && has_slot r)) (err missing_branch i.id))
  op_rules Op.par i l r b p d c =
      return (flag (not (has_slot l && has_slot r)) (err missing_branch i.id))
  op_rules Op.alt i l r b p d c = return (alt_rules i (has_slot l) (has_slot r) (has_slot d) c)
  op_rules Op.arr i l r b p d c = return (
      named i.pure (err arr_no_pure i.id) i.id
      ++ (check_arr_args i
          ++ flag (has_slot l || (has_slot r || (has_slot b || (has_cases c || has_slot d))))
              (err arr_has_child i.id)))
  op_rules Op.iter_up_to i l r b p d c = return (
      flag (not (has_slot b)) (err iter_no_body i.id)
      ++ (flag (not (is_some i.bound) || below_one i.bound) (err iter_bad_bound i.id)
          ++ flag (unregistered i.pure) (err unknown_pure i.id)))
  op_rules Op.each i l r b p d c = return (
      flag (not (has_slot b)) (err each_no_body i.id)
      ++ (flag (below_one i.bound) (err each_bad_bound i.id)
          ++ flag (unregistered i.pure) (err unknown_pure i.id)))
  op_rules Op.eval_plan i l r b p d c = plan_rules i p
  op_rules Op.app i l r b p d c = return (app_rules i)
  op_rules _ i l r b p d c = return []

  -- The rules on fields that other operators own.
  abbrev pub field_rules : Info → (has_default : Bool) → CaseSlot → List Diagnostic
  field_rules i d c =
      flag (is_prim i.op && not (is_some i.step)) (err prim_no_step i.id)
      ++ (flag (not (is_prim i.op) && is_some i.step) (err step_on_nonprim i.id)
          ++ (flag (not (is_alt i.op) && (is_some i.select || (has_cases c || d)))
                (err alt_fields_on_nonalt i.id)
              ++ flag (not (takes_args i.op) && (is_some i.args && not (is_emit i)))
                  (err arr_args_on_nonarr i.id)))

  unfoldable pub check_structure : Node → Result (List Diagnostic)
  unfolding op_rules
  check_structure (node i l r b p c d) = do
    rules ← op_rules i.op i l r b p d c
    return (field_rules i (has_slot d) c ++ rules)
