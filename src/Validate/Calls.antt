-- ===== src/Validate/Calls.antt =====
-- Calls against the frozen manifest, the schemas along a `seq` edge and whole-session contexts, in
-- julep/validate.py.
use julep.Prelude.{
  Text, Bool, true, false, not, ◌&&◌, any, get, pos, ltb_ℤ, Option, none, some, List, [], ◌∷◌, ◌++◌,
  Result, return, raise, attribute_error,
}
use julep.Json.{Json}
use julep.Kinds.{Op, whole_session, is_dangerous}
use julep.Ir.{
  Step, call, think, ContextPolicy, Wire, Ann, Info, Node, node, Slot, absent, present, walk, info,
  call_of,
}
use julep.Contracts.{FrozenTool, ToolManifest, contract_allows_retry}
use julep.Validate.Diagnostic.{
  Diagnostic, err, warn, flag, unfrozen_call, missing_manifest, retry_non_idempotent_dangerous,
  ctx_par_degraded, ctx_each_degraded,
}

-- `max_attempts > 1`, where it is an integer.
abbrev pub retries : Option Ann → Bool
retries none = false
retries (some a) = elim a.max_attempts [ some (Wire.int z) ↦ ltb_ℤ (pos 1) z | _ ↦ false ]

abbrev bound_call : Option FrozenTool → Info → List Diagnostic
bound_call none i = err missing_manifest i.id ∷ []
bound_call (some tool) i =
    flag
      (retries i.ann
        && (is_dangerous tool.contract.effect && not (contract_allows_retry tool.contract)))
      (err retry_non_idempotent_dangerous i.id)

abbrev frozen_call : Option Text → ToolManifest → Info → List Diagnostic
frozen_call none manifest i = err unfrozen_call i.id ∷ []
frozen_call (some hash) manifest i = bound_call (get hash manifest) i

unfoldable pub check_call_and_ctx : Option ToolManifest → Info → List Diagnostic
unfolding get contract_allows_retry
check_call_and_ctx none i = []
check_call_and_ctx (some manifest) i = elim (call_of i.step) [
  | none ↦ []
  | some s ↦ frozen_call s.frozen_hash manifest i
]

abbrev ctx_of : Option Step → Option ContextPolicy
ctx_of (some (call s)) = s.ctx
ctx_of (some (think s)) = s.ctx
ctx_of _ = none

abbrev is_whole : Option ContextPolicy → Bool
is_whole none = false
is_whole (some c) = elim c.scope [ whole_session ↦ true | _ ↦ false ]

unfoldable pub reads_whole_session : Node → Bool
reads_whole_session n = any (λ d. is_whole (ctx_of (info d).step)) (walk n)

abbrev reads : Slot → Bool
reads absent = false
reads (present n) = reads_whole_session n

abbrev both : Slot → Slot → Bool
both (present l) (present r) = true
both _ _ = false

-- The warnings for a concurrent branch that reads the whole session.
unfoldable pub check_degraded : Node → List Diagnostic
unfolding reads_whole_session
check_degraded (node i l r b p c d) = elim i.op [
  | Op.par ↦
      flag (both l r && reads l) (warn ctx_par_degraded i.id)
      ++ flag (both l r && reads r) (warn ctx_par_degraded i.id)
  | Op.each ↦ flag (reads b) (warn ctx_each_degraded i.id)
  | _ ↦ []
]

-- The frozen tool of a call leaf.
abbrev tool_of : ToolManifest → Option Step → Option FrozenTool
tool_of manifest step = elim (call_of step) [
  | none ↦ none
  | some s ↦ elim s.frozen_hash [ none ↦ none | some h ↦ get h manifest ]
]

abbrev input_of : Option FrozenTool → Option Json
input_of none = none
input_of (some t) = some t.input_schema

abbrev output_of : Option FrozenTool → Option Json
output_of none = none
output_of (some t) = t.output_schema

abbrev schema_at : Op → Option Json → (edge body : Result (Option Json)) → Result (Option Json)
schema_at Op.prim leaf edge body = return leaf
schema_at Op.seq leaf edge body = edge
schema_at Op.iter_up_to leaf edge body = body
schema_at _ leaf edge body = return none

-- The input schema of the first leaf to receive the value, if knowable.
unfoldable mutual
  unfolding get

  pub entry_schema : ToolManifest → Node → Result (Option Json)
  entry_schema m (node i l r b p c d) =
      let edge = entry_slot m l in
      let body = entry_slot m b in schema_at i.op (input_of (tool_of m i.step)) edge body

  pub entry_slot : ToolManifest → Slot → Result (Option Json)
  entry_slot m absent = raise attribute_error
  entry_slot m (present n) = entry_schema m n

-- The output schema of the last leaf to produce the value, if knowable.
unfoldable mutual
  unfolding get

  pub exit_schema : ToolManifest → Node → Result (Option Json)
  exit_schema m (node i l r b p c d) =
      let edge = exit_slot m r in
      let body = exit_slot m b in schema_at i.op (output_of (tool_of m i.step)) edge body

  pub exit_slot : ToolManifest → Slot → Result (Option Json)
  exit_slot m absent = raise attribute_error
  exit_slot m (present n) = exit_schema m n
