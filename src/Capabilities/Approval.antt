-- ===== src/Capabilities/Approval.antt =====
-- `check_approval_gates` of julep/capabilities.py: a human gate before each call that needs approval.
-- The cache of `always_gates` is one by object, so on a tree it changes nothing.
pub mod Runs
pub mod Guarded
pub mod Gates
pub mod Sound
use julep.Prelude.{
  Text, text_eq, get, Bool, true, false, not, ◌&&◌, ◌||◌, Option, none, some, List, [], ◌∷◌, ◌++◌,
}
use julep.Kinds.{Op, is_dangerous}
use julep.Ir.{
  toolref_key, human_gate_tool, CallStep, Step, call, Info, Node, node, Slot, absent, present,
  CaseSlot, no_cases, switch, Cases, end, case,
}
use julep.Contracts.{FrozenTool, ToolManifest}
use julep.Validate.Diagnostic.{Diagnostic, err, flag, approval_ungated}
use julep.Capabilities.{ToolGrant, CapabilityManifest, approves}

unfoldable pub is_human_gate : Option Step → Bool
unfolding text_eq toolref_key
is_human_gate (some (call s)) = text_eq (toolref_key s.tool) human_gate_tool
is_human_gate _ = false

-- The branches of a node, given by whether each present one always gates.
abbrev pub gates_at : Op → (l r : Bool) → (cases : Option Bool) → (default : Bool) → Bool
gates_at Op.seq l r c d = l || r
gates_at Op.par l r c d = l || r
gates_at Op.alt l r (some all) d = all && d
gates_at Op.alt l r none d = l && r
gates_at _ l r c d = false

unfoldable mutual
  unfolding is_human_gate

  pub always_gates : Node → Bool
  always_gates (node i l r b p c d) =
      is_human_gate i.step
      || gates_at i.op (gates_slot l) (gates_slot r) (gates_case_slot c) (gates_default d)

  -- `always_gates(None)` is false.
  pub gates_slot : Slot → Bool
  gates_slot absent = false
  gates_slot (present n) = always_gates n

  -- `node.default is None or always_gates(node.default)`
  pub gates_default : Slot → Bool
  gates_default absent = true
  gates_default (present n) = always_gates n

  pub gates_case_slot : CaseSlot → Option Bool
  gates_case_slot no_cases = none
  gates_case_slot (switch cs) = some (gates_cases cs)

  pub gates_cases : Cases → Bool
  gates_cases end = true
  gates_cases (case k n cs) = always_gates n && gates_cases cs

abbrev pub grant_approval : Option ToolGrant → Bool
grant_approval none = false
grant_approval (some g) = approves g.approval

abbrev pub granted_approval : Option CapabilityManifest → Text → Bool
granted_approval none key = false
granted_approval (some c) key = grant_approval (get key c.tools)

abbrev pub dangerous_entry : Option FrozenTool → Bool
dangerous_entry none = false
dangerous_entry (some t) = is_dangerous t.contract.effect

abbrev pub frozen_effect : ToolManifest → Option Text → Bool
frozen_effect m none = false
frozen_effect m (some hash) = dangerous_entry (get hash m)

-- The parts that the walk enters: `gated` is whether a gate comes before each.
abbrev pub approval_below :
    Op
    → (two body plan cases default : List Diagnostic) → CaseSlot
    → (self : List Diagnostic) → List Diagnostic
approval_below Op.seq two body plan cases default c self = two
approval_below Op.par two body plan cases default c self = two ++ (body ++ plan)
approval_below Op.each two body plan cases default c self = two ++ (body ++ plan)
approval_below Op.iter_up_to two body plan cases default c self = two ++ (body ++ plan)
approval_below Op.eval_plan two body plan cases default c self = two ++ (body ++ plan)
approval_below Op.alt two body plan cases default no_cases self = two
approval_below Op.alt two body plan cases default (switch cs) self = cases ++ default
approval_below _ two body plan cases default c self = self

-- Whether a gate comes before the right branch.
abbrev pub gated_right : Op → (gated left_gates : Bool) → Bool
gated_right Op.seq gated left_gates = gated || left_gates
gated_right _ gated left_gates = gated

module _ (m : ToolManifest) (caps : Option CapabilityManifest) where
  unfoldable pub approval_required : Option Step → Bool
  unfolding get text_eq toolref_key
  approval_required (some (call s)) =
      let key = toolref_key s.tool in
      not (text_eq key human_gate_tool)
      && (granted_approval caps key || frozen_effect m s.frozen_hash)
  approval_required _ = false

  -- `emit_if_ungated`
  abbrev pub emit_if_ungated : Info → Bool → List Diagnostic
  emit_if_ungated i gated = flag (approval_required i.step && not gated) (err approval_ungated i.id)

  unfoldable mutual
    unfolding always_gates approval_required

    -- `walk`
    pub approvals : Bool → Node → List Diagnostic
    approvals gated (node i l r b p c d) =
        approval_below i.op
          (approvals_slot gated l ++ approvals_slot (gated_right i.op gated (gates_slot l)) r)
          (approvals_slot gated b) (approvals_slot gated p) (approvals_case_slot gated c)
          (approvals_slot gated d) c (emit_if_ungated i gated)

    pub approvals_slot : Bool → Slot → List Diagnostic
    approvals_slot gated absent = []
    approvals_slot gated (present n) = approvals gated n

    pub approvals_case_slot : Bool → CaseSlot → List Diagnostic
    approvals_case_slot gated no_cases = []
    approvals_case_slot gated (switch cs) = approvals_cases gated cs

    pub approvals_cases : Bool → Cases → List Diagnostic
    approvals_cases gated end = []
    approvals_cases gated (case k n cs) = approvals gated n ++ approvals_cases gated cs

  unfoldable pub check_approval_gates : Node → List Diagnostic
  unfolding approvals
  check_approval_gates flow = approvals false flow
