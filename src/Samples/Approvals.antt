-- ===== src/Samples/Approvals.antt =====
-- A flow that asks a human, calls a dangerous tool, and opens an agent.
use julep.Prelude.{
  ◌≡◌, refl, Text, text, text_eq, has_text, get, Bool, true, false, ◌⊎◌, Option, none, some, [],
  ◌∷◌, here, In,
}
use julep.Kinds.{Op}
use julep.Ir.{toolref_key, human_gate_tool, CallStep, native_tool, Node, walk, info}
use julep.Capabilities.{
  ToolGrant, CapabilityManifest, unconstrained, is_reserved, memory_denied, wire_key,
  grant_requires, frozen_dangerous,
}
use julep.Capabilities.Compile.{cap_node_rules, enforce_compile}
use julep.Capabilities.Approval.{is_human_gate, approval_required, check_approval_gates}
use julep.Capabilities.Approval.Runs.{leaf, silent, sequence}
use julep.Capabilities.Approval.Guarded.{guarded}
use julep.Capabilities.Approval.Gates.{IsCovered}
use julep.Capabilities.Approval.Sound.{gated_runs}
use julep.Capabilities.Granted.{ToolGranted, ServerGranted, granted_calls, agent_tools}
use julep.Samples.Flows.{blank, leaf_of, pair_of, call_node}

program : Unit {0}
unfolding check_approval_gates is_human_gate approval_required enforce_compile cap_node_rules walk
    get text_eq toolref_key has_text frozen_dangerous wire_key memory_denied
program = tt

abbrev grant : Option Bool → ToolGrant
grant approval = record { effect = none; idempotency = none; approval = approval; max_calls = none }

-- `deploy` needs approval, and `fetch` does not.
abbrev caps : CapabilityManifest
caps = record unconstrained {
  tools = (text "deploy", grant (some true)) ∷ (text "fetch", grant none) ∷ [];
  has_tools = true;
}

abbrev ask : Node
ask = call_node (text "a") human_gate_tool

abbrev ship : Node
ship = call_node (text "b") (text "deploy")

abbrev chat : Node
chat = leaf_of (record (blank Op.app (text "c")) {
  controller = some (text "planner");
  tools = some (text "fetch" ∷ []);
})

abbrev rest : Node
rest = pair_of (blank Op.seq (text "r")) ship chat

abbrev flow : Node
flow = pair_of (blank Op.seq (text "s")) ask rest

abbrev no_model : Text → Option Text
no_model reasoner = none

abbrev no_version : Option Text → Text → Bool
no_version actual pin = false

approved : check_approval_gates [] (some caps) flow ≡ []
unfolding program
approved = refl

gates_are_leaves : IsCovered flow
unfolding program
gates_are_leaves = (
  ((λ h. cc), refl),
  (((λ h. refl), refl), (((λ h. cc), refl), (((λ h. refl), refl), (((λ h. cc), refl), tt)))),
)

granted : enforce_compile no_model no_version caps none flow ≡ []
unfolding program
granted = refl

granted_ship : enforce_compile no_model no_version caps none ship ≡ []
unfolding program
granted_ship = refl

granted_chat : enforce_compile no_model no_version caps none chat ≡ []
unfolding program
granted_chat = refl

In-ship : In ship (walk ship)
unfolding program
In-ship = here

In-chat : In chat (walk chat)
unfolding program
In-chat = here

gated_runs_example : guarded [] (some caps) false (info ask ∷ info ship ∷ []) ≡ true
gated_runs_example =
    gated_runs [] (some caps) flow (info ask ∷ info ship ∷ []) approved gates_are_leaves (
      sequence flow ask rest (info ask ∷ []) (info ship ∷ []) refl refl refl (leaf ask refl) (
        sequence rest ship chat (info ship ∷ []) [] refl refl refl (leaf ship refl)
          (silent chat refl)))

abbrev deploy_call : CallStep
deploy_call = record { tool = native_tool (text "deploy"); ctx = none; frozen_hash = none }

granted_calls_example :
    ((is_reserved (toolref_key deploy_call.tool) ≡ true)
      ⊎ ToolGranted caps (toolref_key deploy_call.tool))
    × ServerGranted no_model no_version caps none deploy_call.frozen_hash deploy_call.tool
    × (memory_denied caps deploy_call.ctx ≡ false)
granted_calls_example =
    granted_calls no_model no_version caps none ship ship deploy_call granted_ship In-ship refl

agent_tools_example :
    ToolGranted caps (wire_key none (text "fetch"))
    × (grant_requires (get (wire_key none (text "fetch")) caps.tools) ≡ false)
    × (frozen_dangerous (wire_key none (text "fetch")) none ≡ false)
agent_tools_example =
    agent_tools no_model no_version caps none chat chat (text "fetch" ∷ []) (text "fetch")
      granted_chat In-chat refl refl here
