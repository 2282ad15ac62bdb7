-- ===== src/Capabilities.antt =====
-- julep/capabilities.py: what a deployed flow is allowed to touch. The sets of the manifest are lists;
-- a section that is absent allows everything, one that is present only what it names.
pub mod Approval
pub mod Compile
pub mod Granted
use julep.Prelude.{
  ℕ, Text, text_eq, has_text, get, is_some, or_else, Bool, true, false, not, ◌&&◌, ◌||◌, any, ℤ,
  pos, ltb_ℤ, Option, none, some, List, [], ◌∷◌, ◌++◌, collect, if◌then◌else◌, Result, return,
  raise, capability_denied,
}
use julep.Kinds.{Op, Effect, is_dangerous, Idempotency, ContextScope, same_scope}
use julep.Ir.{
  ToolRef, native_tool, mcp_tool, toolref_key, human_gate_tool, recv_tool, emit_tool, sleep_tool,
  ContextPolicy, CallStep, Step, call, think, sub, Info, Node, info, walk,
}
use julep.Contracts.{ToolContract, FrozenTool, ToolManifest}
use julep.Validate.Diagnostic.{
  Diagnostic, err, flag, cap_tool_denied, cap_server_denied, cap_version_pin, cap_memory_denied,
  cap_model_denied, cap_model_id_denied, cap_subflow_denied, cap_app_tool_denied,
  cap_app_approval_tool, cap_app_subflow_denied,
}

pub record Budget : Type 0 where
  pub cost : Option ℤ
  pub tokens : Option ℤ
  pub wall_seconds : Option ℤ

-- The name of a grant is its key.
pub record ToolGrant : Type 0 where
  pub effect : Option Effect
  pub idempotency : Option Idempotency
  pub approval : Option Bool
  pub max_calls : Option ℤ

-- `ToolGrant.contract`: a contract is asserted by both of its fields.
unfoldable pub granted_contract : ToolGrant → Option ToolContract
granted_contract g = both g.effect g.idempotency
  where
    both : Option Effect → Option Idempotency → Option ToolContract
    both (some e) (some i) = some (record { effect = e; idempotency = i })
    both _ _ = none

pub record CapabilityManifest : Type 0 where
  pub tools : List (Text × ToolGrant)
  pub reasoners : List Text
  pub models : List Text
  pub subflows : List Text
  pub memory : List ContextScope
  pub network : List Text
  pub mcp_servers : List (Text × Option Text)
  pub budget : Option Budget
  pub has_tools : Bool
  pub has_reasoners : Bool
  pub has_models : Bool
  pub has_subflows : Bool
  pub has_memory : Bool
  pub has_network : Bool
  pub has_servers : Bool

-- `CapabilityManifest()`
abbrev pub unconstrained : CapabilityManifest
unconstrained = record {
  tools = [];
  reasoners = [];
  models = [];
  subflows = [];
  memory = [];
  network = [];
  mcp_servers = [];
  budget = none;
  has_tools = false;
  has_reasoners = false;
  has_models = false;
  has_subflows = false;
  has_memory = false;
  has_network = false;
  has_servers = false;
}

-- The contracts of `overrides`, for the grants that assert one.
unfoldable pub overrides : List (Text × ToolGrant) → List (Text × ToolContract)
unfolding granted_contract
overrides [] = []
overrides ((name, g) ∷ gs) = elim (granted_contract g) [
  | none ↦ overrides gs
  | some c ↦ (name, c) ∷ overrides gs
]

unfoldable pub max_call_limits : List (Text × ToolGrant) → List (Text × ℤ)
max_call_limits [] = []
max_call_limits ((name, g) ∷ gs) = elim g.max_calls [
  | none ↦ max_call_limits gs
  | some n ↦ (name, n) ∷ max_call_limits gs
]

-- `key in {HUMAN_GATE_TOOL, RECV_TOOL, EMIT_TOOL, SLEEP_TOOL}`
abbrev pub is_reserved : Text → Bool
is_reserved key = has_text key (human_gate_tool ∷ recv_tool ∷ emit_tool ∷ sleep_tool ∷ [])

abbrev pub has_scope : List ContextScope → ContextScope → Bool
has_scope ss s = any (λ t. same_scope t s) ss

-- `self._has_memory and ctx is not None and ctx.scope not in self.memory`
unfoldable pub memory_denied : CapabilityManifest → Option ContextPolicy → Bool
unfolding same_scope
memory_denied c none = false
memory_denied c (some p) = c.has_memory && not (has_scope c.memory p.scope)

-- `_server_version`
abbrev pub version_in : Option FrozenTool → Option Text
version_in none = none
version_in (some t) = t.server_version

unfoldable pub server_version : Option Text → Option ToolManifest → Option Text
unfolding get
server_version (some hash) (some m) = version_in (get hash m)
server_version _ _ = none

abbrev is_agent_or_plan : Op → Bool
is_agent_or_plan Op.app = true
is_agent_or_plan Op.eval_plan = true
is_agent_or_plan _ = false

abbrev pub think_reasoner : Option Step → List Text
think_reasoner (some (think s)) = s.reasoner ∷ []
think_reasoner _ = []

abbrev pub controller_of : Bool → Option Text → List Text
controller_of true (some t) = t ∷ []
controller_of _ _ = []

-- `_reasoner_refs`
unfoldable pub reasoner_refs : Info → List Text
reasoner_refs i = think_reasoner i.step ++ controller_of (is_agent_or_plan i.op) i.controller

-- `grant.approval is True or grant.effect == Effect.DANGEROUS`
abbrev pub approves : Option Bool → Bool
approves (some b) = b
approves none = false

abbrev pub effect_dangerous : Option Effect → Bool
effect_dangerous (some e) = is_dangerous e
effect_dangerous none = false

abbrev pub grant_requires : Option ToolGrant → Bool
grant_requires none = false
grant_requires (some g) = approves g.approval || effect_dangerous g.effect

unfoldable pub frozen_dangerous : Text → Option ToolManifest → Bool
unfolding text_eq toolref_key
frozen_dangerous key none = false
frozen_dangerous key (some m) =
    any (λ e. text_eq (toolref_key e.1.ref) key && is_dangerous e.1.contract.effect) m

-- `_app_tool_approval_required`
unfoldable pub app_tool_approval_required : CapabilityManifest → Text → Option ToolManifest → Bool
unfolding get frozen_dangerous
app_tool_approval_required c key m = grant_requires (get key c.tools) || frozen_dangerous key m

-- `(n.tool_aliases or {}).get(tool_key, tool_key)`
unfoldable pub wire_key : Option (List (Text × Text)) → Text → Text
unfolding get
wire_key none key = key
wire_key (some aliases) key = or_else (get key aliases) key

unfoldable pub network_allows : CapabilityManifest → Text → Bool
unfolding has_text
network_allows c domain = if c.has_network then has_text domain c.network else true

abbrev pub exceeds : ℤ → Option ℤ → Bool
exceeds spent none = false
exceeds spent (some limit) = ltb_ℤ limit spent

abbrev pub within : Option Budget → (cost tokens : ℤ) → Result (Unit {0})
within none cost tokens = return tt
within (some b) cost tokens =
    if exceeds cost b.cost || exceeds tokens b.tokens then raise capability_denied else return tt

-- Raises `CapabilityDenied` if a running estimate exceeds the budget.
unfoldable pub assert_within_budget : CapabilityManifest → (cost tokens : ℤ) → Result (Unit {0})
assert_within_budget c cost tokens = within c.budget cost tokens
