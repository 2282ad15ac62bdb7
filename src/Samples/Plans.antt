-- ===== src/Samples/Plans.antt =====
-- The admission of a plan of six calls against a budget of six.
use julep.Prelude.{
  ◌≡◌, refl, ap, ◌∙◌, Text, text, text_eq, get, Bool, true, false, is_some, pos, ◌≤ℤ◌, ◌+ℤ◌, ◌*ℤ◌,
  Option, none, some, List, [], ◌∷◌, return, here, there, All, arith,
}
use julep.Json.{Json, null}
use julep.Kinds.{Op, read, native, shape_join}
use julep.Ir.{call, native_tool, toolref_key, Node, node, absent, present, no_cases, walk, info}
use julep.Contracts.{FrozenTool, ToolManifest, contract_allows_retry}
use julep.Shapes.{closed_shape}
use julep.Shapes.Executed.{self, inside}
use julep.Transforms.{collect_duplicate_ids}
use julep.Validate.Diagnostic.{is_recv, is_emit, blocking}
use julep.Validate.Fence.{check_session_concurrency_fence}
use julep.Validate.Turns.{check_session_loop_productivity}
use julep.Validate.Session.{
  check_session_loop_placement, check_session_loop_fields, check_session_channel_declared,
  check_session_target,
}
use julep.Validate.Structure.{check_structure}
use julep.Validate.Args.{check_ann_retry_fields}
use julep.Validate.Calls.{check_call_and_ctx, check_degraded, entry_schema, exit_schema}
use julep.Validate.Gate.{validate}
use julep.Capabilities.{ToolGrant, CapabilityManifest, unconstrained}
use julep.Staged.{estimate_cost}
use julep.Staged.Cost.{Spends, leaf, both, rounds, stop, again}
use julep.Staged.Bind.{bind, bind_plan}
use julep.Staged.Admission.{step_rules, admit_plan}
use julep.Staged.Admits.{NonNegCosts, admitted_spend}
use julep.Staged.Grants.{admitted_grants}
use julep.Staged.Pinned.{IsPinned, admitted_pins}
use julep.Samples.Flows.{blank, leaf_of, pair_of, retrying}

abbrev frozen : Text → FrozenTool
frozen name = record {
  definition_hash = name;
  execution_hash = name;
  ref = native_tool name;
  input_schema = null;
  contract = record { effect = read; idempotency = native };
  output_schema = none;
  server_version = none;
  protocol_version = none;
  annotations = none;
  asserted = true;
  assertion_provenance = none;
}

abbrev pub manifest : ToolManifest
manifest = (text "fetch", frozen (text "fetch")) ∷ (text "store", frozen (text "store")) ∷ []

abbrev grant : ToolGrant
grant = record { effect = none; idempotency = none; approval = none; max_calls = none }

abbrev parent : CapabilityManifest
parent = record unconstrained {
  tools = (text "fetch", grant) ∷ (text "store", grant) ∷ [];
  budget = some (record { cost = some (pos 6); tokens = none; wall_seconds = none });
  has_tools = true;
}

abbrev no_reserved : Json → List Text
no_reserved schema = []

abbrev compatible : Option Json → Option Json → Bool
compatible out inp = false

program : Unit {0}
unfolding validate collect_duplicate_ids check_session_concurrency_fence
    check_session_loop_productivity walk is_recv is_emit check_structure check_ann_retry_fields
    text_eq get ◌+ℤ◌ ◌*ℤ◌ check_session_loop_placement check_session_loop_fields
    check_session_channel_declared check_session_target check_call_and_ctx check_degraded
    entry_schema exit_schema closed_shape shape_join contract_allows_retry toolref_key estimate_cost
    bind bind_plan step_rules blocking admit_plan
program = tt

admitted :
    admit_plan [] no_reserved compatible 1 retrying parent (some manifest)
    ≡ return (bind manifest retrying)
unfolding program
admitted = refl

-- The plan after binding.
abbrev bound_call : Text → Text → Node
bound_call id name = leaf_of (record (blank Op.prim id) {
  step = some (call (record { tool = native_tool name; ctx = none; frozen_hash = some name }));
})

abbrev bound_steps : Node
bound_steps =
    pair_of (blank Op.seq (text "steps")) (bound_call (text "a") (text "fetch"))
      (bound_call (text "b") (text "store"))

abbrev bound_plan : Node
bound_plan =
    node (record (blank Op.iter_up_to (text "again")) { bound = some (pos 3) }) absent absent
      (present bound_steps) absent no_cases absent

binds : bind manifest retrying ≡ bound_plan
unfolding program
binds = refl

admitted_bound :
    admit_plan [] no_reserved compatible 1 retrying parent (some manifest) ≡ return bound_plan
admitted_bound = admitted ∙ ap return binds

one_round : Spends 1 (pos 2) bound_steps 2
one_round =
    both _ _ _ _ _ _ _ 1 1 refl (leaf _ _ _ _ _ _ _ none refl (omega arith))
      (leaf _ _ _ _ _ _ _ none refl (omega arith))

three_rounds : Spends 1 (pos 2) bound_plan 6
three_rounds =
    rounds _ _ _ _ _ _ bound_steps 3 6 refl (omega arith)
      (again _ 2 2 4 one_round (again _ 1 2 2 one_round (again _ 0 2 0 one_round (stop _))))

bound_costs : NonNegCosts bound_plan
bound_costs m (self _) = omega arith
bound_costs m (inside _ _ _ here (self _)) = omega arith
bound_costs m (inside _ _ _ here (inside _ _ _ here (self _))) = omega arith
bound_costs m (inside _ _ _ here (inside _ _ _ (there here) (self _))) = omega arith
bound_costs m (inside _ _ _ here (inside _ _ _ here (inside _ k _ e _))) = elim e [ ]
bound_costs m (inside _ _ _ here (inside _ _ _ (there here) (inside _ k _ e _))) = elim e [ ]
bound_costs m (inside _ _ _ here (inside _ k _ (there (there e)) _)) = elim e [ ]
bound_costs m (inside _ k _ (there e) _) = elim e [ ]

admitted_spend_example : pos 6 ≤ℤ pos 6
admitted_spend_example =
    admitted_spend [] no_reserved compatible 1 retrying bound_plan parent manifest (pos 6) (pos 2) 6
      admitted_bound refl bound_costs (omega arith) three_rounds

admitted_grants_example :
    is_some (get (toolref_key (native_tool (text "store"))) parent.tools) ≡ true
admitted_grants_example =
    admitted_grants [] no_reserved compatible 1 retrying bound_plan
      (bound_call (text "b") (text "store")) parent manifest
      (record { tool = native_tool (text "store"); ctx = none; frozen_hash = some (text "store") })
      admitted_bound refl (inside _ _ _ here (inside _ _ _ (there here) (self _))) refl

admitted_pins_example : All (λ k. IsPinned manifest (info k).step) (walk bound_plan)
admitted_pins_example =
    admitted_pins [] no_reserved compatible 1 retrying bound_plan parent manifest admitted_bound
