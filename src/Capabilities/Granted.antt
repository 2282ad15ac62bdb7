-- ===== src/Capabilities/Granted.antt =====
-- What `enforce_compile` of julep/capabilities.py lets through.
use julep.Prelude.{
  ◌≡◌, refl, Text, get, is_some, Bool, true, false, not, ◌&&◌, ◌⊎◌, inl, inr, Bool-cases,
  or-eq_false, Option, none, some, List, [], ◌++◌, append-eq_nil, In, In-All, collect,
  collect-eq_nil, arith,
}
use julep.Kinds.{Op}
use julep.Ir.{ToolRef, native_tool, mcp_tool, toolref_key, CallStep, call, Node, info, walk}
use julep.Contracts.{ToolManifest}
use julep.Validate.Diagnostic.{Diagnostic, err, flag, cap_tool_denied, cap_memory_denied}
use julep.Capabilities.{
  CapabilityManifest, is_reserved, memory_denied, server_version, wire_key, grant_requires,
  app_tool_approval_required, frozen_dangerous, reasoner_refs,
}
use julep.Capabilities.Compile.{
  pin_rules, server_rules, cap_call_rules, cap_leaf_rules, reasoner_rules, app_tool_rules,
  cap_node_rules, enforce_compile, listed,
}

flag-eq_nil : (b : Bool) (d : Diagnostic) → flag b d ≡ [] → b ≡ false
flag-eq_nil true d h = cc
flag-eq_nil false d h = refl

-- A tool whose key is granted, if there is a list of tools.
abbrev pub ToolGranted : CapabilityManifest → Text → Type 0
ToolGranted c key = (c.has_tools ≡ false) ⊎ (is_some (get key c.tools) ≡ true)

not-eq_false : (b : Bool) → not b ≡ false → b ≡ true
not-eq_false b h = ground arith

tool-eq_false :
    (r h g : Bool) → (not r && (h && not g)) ≡ false → (r ≡ true) ⊎ ((h ≡ false) ⊎ (g ≡ true))
tool-eq_false r h g e = ground arith

grant-eq_false : (h g : Bool) → (h && not g) ≡ false → (h ≡ false) ⊎ (g ≡ true)
grant-eq_false h g e = ground arith

module _ (model_of : Text → Option Text) (satisfies : Option Text → Text → Bool)
    (c : CapabilityManifest) (m : Option ToolManifest) where
  -- A server that may be called, at the version that the frozen entry has.
  abbrev PinHolds : Option Text → Option (Option Text) → Type 0
  PinHolds hash none = ⊥
  PinHolds hash (some none) = Unit
  PinHolds hash (some (some pin)) = satisfies (server_version hash m) pin ≡ true

  abbrev pub ServerGranted : Option Text → ToolRef → Type 0
  ServerGranted hash (native_tool name) = Unit
  ServerGranted hash (mcp_tool server tool) =
      (c.has_servers ≡ false) ⊎ PinHolds hash (get server c.mcp_servers)

  pin-holds :
      (s : CallStep) (id : Text) (o : Option (Option Text))
      → pin_rules model_of satisfies c m s id o ≡ []
      → PinHolds s.frozen_hash o
  pin-holds s id none h = cc
  pin-holds s id (some none) h = tt
  pin-holds s id (some (some pin)) h = not-eq_false _ (flag-eq_nil _ _ h)

  server-granted :
      (s : CallStep) (id : Text) (t : ToolRef)
      → server_rules model_of satisfies c m s id t ≡ []
      → ServerGranted s.frozen_hash t
  unfolding get
  server-granted s id (native_tool name) h = tt
  server-granted s id (mcp_tool server tool) h = elim (Bool-cases c.has_servers) [
    | inl e ↦ inr (pin-holds s id (get server c.mcp_servers) (rw e at h))
    | inr e ↦ inl e
  ]

  node-quiet :
      (flow n : Node)
      → enforce_compile model_of satisfies c m flow ≡ []
      → In n (walk flow)
      → cap_node_rules model_of satisfies c m (info n) ≡ []
  unfolding enforce_compile
  node-quiet flow n h e =
      In-All (λ k. cap_node_rules model_of satisfies c m (info k) ≡ [])
        (collect-eq_nil (λ k. cap_node_rules model_of satisfies c m (info k)) (walk flow) h) e

  call-granted :
      (id : Text) (s : CallStep)
      → cap_call_rules model_of satisfies c m id (some (call s)) ≡ []
      → ((is_reserved (toolref_key s.tool) ≡ true) ⊎ ToolGranted c (toolref_key s.tool))
        × ServerGranted s.frozen_hash s.tool
        × (memory_denied c s.ctx ≡ false)
  unfolding cap_call_rules
  call-granted id s h =
      let key = toolref_key s.tool in
      let tools =
        flag (not (is_reserved key) && (c.has_tools && not (is_some (get key c.tools))))
          (err cap_tool_denied id) in
      let servers = server_rules model_of satisfies c m s id s.tool in
      let memory = flag (memory_denied c s.ctx) (err cap_memory_denied id) in
      let (ht, hrest) = append-eq_nil tools (servers ++ memory) h in
      let (hs, hm) = append-eq_nil servers memory hrest in
      (
        tool-eq_false (is_reserved key) c.has_tools _ (flag-eq_nil _ _ ht),
        server-granted s id s.tool hs,
        flag-eq_nil _ _ hm,
      )

-- If `enforce_compile` reports nothing, every call of the flow is to a reserved tool or to one that is
-- granted, if there is a list of tools; a call to a server is to one that is listed, at a version that
-- satisfies its pin, if there is a list of servers; and the call reads no memory that is denied.
pub granted_calls :
    (model_of : Text → Option Text) (satisfies : Option Text → Text → Bool) (c : CapabilityManifest)
    (m : Option ToolManifest) (flow n : Node) (s : CallStep)
    → enforce_compile model_of satisfies c m flow ≡ []
    → In n (walk flow)
    → (info n).step ≡ some (call s)
    → ((is_reserved (toolref_key s.tool) ≡ true) ⊎ ToolGranted c (toolref_key s.tool))
      × ServerGranted model_of satisfies c m s.frozen_hash s.tool
      × (memory_denied c s.ctx ≡ false)
unfolding cap_node_rules
granted_calls model_of satisfies c m flow n s h e k =
    call-granted model_of satisfies c m (info n).id s (
      rw k at
        (append-eq_nil (cap_call_rules model_of satisfies c m (info n).id (info n).step) _
          (node-quiet model_of satisfies c m flow n h e)).0)

-- If `enforce_compile` reports nothing, every tool that an agent node of the flow lists is granted, if
-- the capabilities have a list of tools, its grant asks for no approval and is not dangerous, and no frozen entry
-- of its key is dangerous.
pub agent_tools :
    (model_of : Text → Option Text) (satisfies : Option Text → Text → Bool) (c : CapabilityManifest)
    (m : Option ToolManifest) (flow n : Node) (ts : List Text) (t : Text)
    → enforce_compile model_of satisfies c m flow ≡ []
    → In n (walk flow)
    → (info n).op ≡ Op.app
    → (info n).tools ≡ some ts
    → In t ts
    → ToolGranted c (wire_key (info n).tool_aliases t)
      × (grant_requires (get (wire_key (info n).tool_aliases t) c.tools) ≡ false)
      × (frozen_dangerous (wire_key (info n).tool_aliases t) m ≡ false)
unfolding cap_node_rules app_tool_rules app_tool_approval_required
agent_tools model_of satisfies c m flow n ts t h e o k i =
    let i0 = info n in
    let rules = node-quiet model_of satisfies c m flow n h e in
    let after_call =
      (append-eq_nil (cap_call_rules model_of satisfies c m i0.id i0.step) _ rules).1 in
    let after_reasoners =
      (append-eq_nil (collect (reasoner_rules model_of satisfies c m i0.id) (reasoner_refs i0)) _
        after_call).1 in
    let app =
      (append-eq_nil (cap_leaf_rules model_of satisfies c m i0.id i0.step) _ after_reasoners).1 in
    let tools : collect (app_tool_rules model_of satisfies c m i0)
          (listed model_of satisfies c m i0.tools)
        ≡ [] =
      (append-eq_nil _ _ (rw o at app)).0 in
    let one =
      In-All (λ x. app_tool_rules model_of satisfies c m i0 x ≡ [])
        (collect-eq_nil (app_tool_rules model_of satisfies c m i0) ts (rw k at tools)) i in
    let (granted, required) = append-eq_nil _ _ one in
    let (own, frozen) = or-eq_false _ _ (flag-eq_nil _ _ required) in
    (grant-eq_false _ _ (flag-eq_nil _ _ granted), own, frozen)
