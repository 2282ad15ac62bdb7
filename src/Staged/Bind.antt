-- ===== src/Staged/Bind.antt =====
-- The binding of a plan's calls to the frozen manifest of its parent, in julep/staged.py. The copy
-- of the plan through its wire form is the plan: values are not shared here.
pub mod Same
use julep.Prelude.{
  ◌≡◌, refl, ap, Text, text_eq, get, Option, none, some, List, [], ◌∷◌, ◌++◌, map, collect,
  if◌then◌else◌, In, here, there,
}
use julep.Ir.{
  CallStep, Step, call, think, sub, toolref_key, Info, Node, node, Slot, absent, present, CaseSlot,
  no_cases, switch, Cases, end, case, info, walk, call_of,
}
use julep.Contracts.{FrozenTool, ToolManifest}
use julep.Validate.Diagnostic.{Diagnostic, err, plan_tool_unbound, plan_tool_ambiguous}

-- `by_key.get(key, [])`: the entries of that key, in the order of the manifest.
unfoldable pub entries_of : Text → ToolManifest → List FrozenTool
unfolding text_eq toolref_key
entries_of key [] = []
entries_of key ((h, e) ∷ m) =
    let rest = entries_of key m in if text_eq (toolref_key e.ref) key then e ∷ rest else rest

-- A call bound to an entry, or what is wrong with it.
pub data Binding : Type 0 where
  bound_to : FrozenTool → Binding
  unbound ambiguous : Binding

abbrev pub pinned_to : Text → Option FrozenTool → Binding
pinned_to key none = unbound
pinned_to key (some e) = if text_eq (toolref_key e.ref) key then bound_to e else unbound

abbrev pub only_match : List FrozenTool → Binding
only_match [] = unbound
only_match (e ∷ []) = bound_to e
only_match (e ∷ f ∷ es) = ambiguous

unfoldable pub binding : ToolManifest → CallStep → Binding
unfolding entries_of get text_eq toolref_key
binding m s = elim s.frozen_hash [
  | none ↦ only_match (entries_of (toolref_key s.tool) m)
  | some pinned ↦ pinned_to (toolref_key s.tool) (get pinned m)
]

abbrev pub pinned_call : CallStep → Binding → CallStep
pinned_call s (bound_to e) = record s { frozen_hash = some e.execution_hash }
pinned_call s _ = s

-- `step.frozen_hash = entry.execution_hash`, where the call is bound.
unfoldable pub bind_step : ToolManifest → Option Step → Option Step
unfolding binding
bind_step m (some (call s)) = some (call (pinned_call s (binding m s)))
bind_step m step = step

unfoldable mutual
  unfolding bind_step

  pub bind : ToolManifest → Node → Node
  bind m (node i l r b p c d) =
      node (record i { step = bind_step m i.step }) (bind_slot m l) (bind_slot m r) (bind_slot m b)
        (bind_slot m p) (bind_case_slot m c) (bind_slot m d)

  pub bind_slot : ToolManifest → Slot → Slot
  bind_slot m absent = absent
  bind_slot m (present n) = present (bind m n)

  pub bind_case_slot : ToolManifest → CaseSlot → CaseSlot
  bind_case_slot m no_cases = no_cases
  bind_case_slot m (switch cs) = switch (bind_cases m cs)

  pub bind_cases : ToolManifest → Cases → Cases
  bind_cases m end = end
  bind_cases m (case k n cs) = case k (bind m n) (bind_cases m cs)

abbrev pub binding_diag : Text → Binding → List Diagnostic
binding_diag id (bound_to e) = []
binding_diag id unbound = err plan_tool_unbound id ∷ []
binding_diag id ambiguous = err plan_tool_ambiguous id ∷ []

unfoldable pub binding_diags : ToolManifest → Info → List Diagnostic
unfolding binding
binding_diags m i = elim (call_of i.step) [ none ↦ [] | some s ↦ binding_diag i.id (binding m s) ]

-- `_bind_plan_to_manifest`
unfoldable pub bind_plan : Node → ToolManifest → Node × List Diagnostic
unfolding bind binding_diags
bind_plan plan m = (bind m plan, collect (λ n. binding_diags m (info n)) (walk plan))
