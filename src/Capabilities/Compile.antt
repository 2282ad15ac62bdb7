-- ===== src/Capabilities/Compile.antt =====
-- `enforce_compile` of julep/capabilities.py: what a flow refers to and its manifest denies.
use julep.Prelude.{
  Text, has_text, get, is_some, Bool, false, not, ◌&&◌, Option, none, some, List, [], ◌∷◌, ◌++◌,
  collect, if◌then◌else◌,
}
use julep.Kinds.{Op}
use julep.Ir.{
  ToolRef, native_tool, mcp_tool, toolref_key, CallStep, Step, call, think, sub, Info, Node, info,
  walk,
}
use julep.Contracts.{ToolManifest}
use julep.Validate.Diagnostic.{
  Diagnostic, err, flag, cap_tool_denied, cap_server_denied, cap_version_pin, cap_memory_denied,
  cap_model_denied, cap_model_id_denied, cap_subflow_denied, cap_app_tool_denied,
  cap_app_approval_tool, cap_app_subflow_denied,
}
use julep.Capabilities.{
  CapabilityManifest, is_reserved, memory_denied, server_version, reasoner_refs, wire_key,
  app_tool_approval_required,
}

-- `model_of` is the model of a registered reasoner, and `satisfies` the test `_version_satisfies`.
module _ (model_of : Text → Option Text) (satisfies : Option Text → Text → Bool)
    (c : CapabilityManifest) (m : Option ToolManifest) where
  -- The entry of `mcp_servers`, and its pin.
  abbrev pub pin_rules : CallStep → Text → Option (Option Text) → List Diagnostic
  pin_rules s id none = err cap_server_denied id ∷ []
  pin_rules s id (some none) = []
  pin_rules s id (some (some pin)) =
      flag (not (satisfies (server_version s.frozen_hash m) pin)) (err cap_version_pin id)

  abbrev pub server_rules : CallStep → Text → ToolRef → List Diagnostic
  server_rules s id (native_tool name) = []
  server_rules s id (mcp_tool server tool) =
      if c.has_servers then pin_rules s id (get server c.mcp_servers) else []

  unfoldable pub cap_call_rules : Text → Option Step → List Diagnostic
  unfolding get toolref_key has_text memory_denied server_version
  cap_call_rules id (some (call s)) =
      let key = toolref_key s.tool in
      flag (not (is_reserved key) && (c.has_tools && not (is_some (get key c.tools))))
        (err cap_tool_denied id)
      ++ (server_rules s id s.tool ++ flag (memory_denied c s.ctx) (err cap_memory_denied id))
  cap_call_rules id _ = []

  unfoldable pub cap_leaf_rules : Text → Option Step → List Diagnostic
  unfolding has_text memory_denied
  cap_leaf_rules id (some (think s)) = flag (memory_denied c s.ctx) (err cap_memory_denied id)
  cap_leaf_rules id (some (sub s)) =
      flag (c.has_subflows && not (has_text s.ref c.subflows)) (err cap_subflow_denied id)
  cap_leaf_rules id _ = []

  abbrev pub model_denied : Option Text → Bool
  model_denied none = false
  model_denied (some model) = c.has_models && not (has_text model c.models)

  unfoldable pub reasoner_rules : Text → Text → List Diagnostic
  unfolding has_text
  reasoner_rules id reasoner =
      flag (c.has_reasoners && not (has_text reasoner c.reasoners)) (err cap_model_denied id)
      ++ flag (model_denied (model_of reasoner)) (err cap_model_id_denied id)

  unfoldable pub app_tool_rules : Info → Text → List Diagnostic
  unfolding get wire_key app_tool_approval_required
  app_tool_rules i tool_key =
      let key = wire_key i.tool_aliases tool_key in
      flag (c.has_tools && not (is_some (get key c.tools))) (err cap_app_tool_denied i.id)
      ++ flag (app_tool_approval_required c key m) (err cap_app_approval_tool i.id)

  unfoldable pub app_subflow_rules : Text → Text → List Diagnostic
  unfolding has_text
  app_subflow_rules id ref =
      flag (c.has_subflows && not (has_text ref c.subflows)) (err cap_app_subflow_denied id)

  abbrev pub listed : Option (List Text) → List Text
  listed none = []
  listed (some xs) = xs

  abbrev pub app_rules : Op → Info → List Diagnostic
  app_rules Op.app i =
      collect (app_tool_rules i) (listed i.tools)
      ++ collect (app_subflow_rules i.id) (listed i.subflows)
  app_rules _ i = []

  -- The loop body of `enforce_compile`.
  unfoldable pub cap_node_rules : Info → List Diagnostic
  unfolding cap_call_rules cap_leaf_rules reasoner_rules reasoner_refs app_tool_rules
      app_subflow_rules
  cap_node_rules i =
      cap_call_rules i.id i.step
      ++ (collect (reasoner_rules i.id) (reasoner_refs i)
          ++ (cap_leaf_rules i.id i.step ++ app_rules i.op i))

  unfoldable pub enforce_compile : Node → List Diagnostic
  unfolding walk cap_node_rules
  enforce_compile flow = collect (λ n. cap_node_rules (info n)) (walk flow)
