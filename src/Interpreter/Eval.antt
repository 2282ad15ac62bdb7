-- ===== src/Interpreter/Eval.antt =====
-- `interpret` and `_eval` of julep/execution/interpreter.py. A call of `interpret` spends one unit of
-- fuel. The attributes of a result and its cost are left out.
pub mod Ends
pub mod Keeps
pub mod Plain
pub mod Rules
pub mod Total
pub mod Projected
pub mod Settled
use julep.Prelude.{
  ◌⊎◌, inl, inr, ℕ, zero, suc, ◌+◌, ◌-◌, Text, text, text_eq, Bool, true, false, ◌||◌, any, ℤ, pos,
  negsuc, pos_part, Option, none, some, or_else, List, [], ◌∷◌, ◌++◌, map, take, drop, length,
  if◌then◌else◌,
}
use julep.Json.{Json, obj, bool, get_field, truthy, null}
use julep.Kinds.{Op, Shape}
use julep.Ir.{
  human_gate_tool, sleep_tool, recv_tool, emit_tool, native_tool, mcp_tool, ToolRef, Ann, CallStep,
  Step, call, think, sub, Merge, MergeKind, all, race, hedge, quorum, unknown, race_like, Info,
  Node, node, Slot, absent, present, CaseSlot, no_cases, switch, Cases, end, case, info, ChannelRef,
}
use julep.Derived.{is_par, flatten_race_group}
use julep.Shapes.{surface_shape}
use julep.Validate.Calls.{reads_whole_session}
use julep.Projection.{ProjectionEmitter, plan_event, did_event, fail_event, cancel_event}
use julep.Interpreter.Env.{
  Fault, pure_execution, session_closed, policy, framework, other, Reply, Run, ended, ok, raised,
  out_of_fuel, State, Eff, ◌>>=◌, done, throw, lift, from_result, required, outside, Values, Floats,
  Pure, Env, Concurrency, next_cid,
}
use julep.Interpreter.Calls.{call_tool}
use julep.Interpreter.Parts.{
  slot, timeout_of, batchable_of, get_case, merges_all, both, kind_of, quorum_of, hedge_of,
  reducer_of, chunks, waves, override, split_result, loop_out_channel, all_branches, branches_below,
}
use julep.Interpreter.Prims.{Res, values_of, apply_pure, reduce, native_call, eval_prim}
use julep.Interpreter.Branches.{
  in_turn, branch, winner, eval_par, gather_waves, all_items, eval_items, eval_each, value_of,
  chosen, take_branch, eval_alt, converged, rounds, convergence, carry_split, carry, after_turn,
  turns,
}

module _ {V W F : Type 0} (vs : Values V) (fl : Floats F) (env : Env V W F)
    (conc : Concurrency V W) where
  module _ (rec : Node → V → (causes : List ℕ) → Eff V W (Res V)) where
    -- A baked plan, or one that is compiled now.
    abbrev pub plan_of : Slot → (controller : Option Text) → V → (cid : Text) → Eff V W Node
    plan_of (present x) controller v cid = done x
    plan_of absent controller v cid = do
      planner ← required controller
      outside (env.compile_plan planner v cid)

    abbrev pub eval_op :
        Op
        → (fuel : ℕ) → Info
        → (l r b p : Slot) → CaseSlot
        → (d : Slot) → V
        → (cid : Text) → (planned : ℕ) → Eff V W V
    unfolding eval_prim eval_par eval_each eval_alt rounds turns
    eval_op Op.ident fuel i l r b p c d v cid planned = done v
    eval_op Op.arr fuel i l r b p c d v cid planned = do
      name ← required i.pure
      apply_pure env name i.args v
    eval_op Op.prim fuel i l r b p c d v cid planned =
        eval_prim vs fl env i.step (node i l r b p c d) v cid
    eval_op Op.seq fuel i l r b p c d v cid planned = do
      x ← required (slot l)
      y ← required (slot r)
      first ← branch vs fl env conc rec v planned x
      second ← branch vs fl env conc rec first.0 first.1 y
      value_of vs fl env conc rec second
    eval_op Op.par fuel i l r b p c d v cid planned =
        eval_par vs fl env conc rec (node i l r b p c d) v planned
    eval_op Op.each fuel i l r b p c d v cid planned = do
      x ← required (slot b)
      eval_each vs fl env conc rec (node i l r b p c d) x v planned
    eval_op Op.alt fuel i l r b p c d v cid planned =
        eval_alt vs fl env conc rec i l r c d v planned
    eval_op Op.iter_up_to fuel i l r b p c d v cid planned = do
      x ← required (slot b)
      bound ← required i.bound
      conv ← convergence vs fl env conc rec i.pure
      rounds vs fl env conc rec (pos_part bound) conv x v planned
    eval_op Op.loop fuel i l r b p c d v cid planned = do
      x ← required (slot b)
      turns vs fl env conc rec fuel i x v planned cid
    eval_op Op.eval_plan fuel i l r b p c d v cid planned = do
      plan ← plan_of p i.controller v cid
      res ← branch vs fl env conc rec v planned plan
      value_of vs fl env conc rec res
    eval_op Op.app fuel i l r b p c d v cid planned = do
      controller ← required i.controller
      out ← outside (env.run_agent controller v cid i)
      lift (vs.agent_result out)

    -- `_eval`
    unfoldable pub evaluate : (fuel : ℕ) → Node → V → (cid : Text) → (planned : ℕ) → Eff V W V
    unfolding eval_op
    evaluate fuel (node i l r b p c d) v cid planned = eval_op i.op fuel i l r b p c d v cid planned

  -- `projection_failure`
  abbrev pub projection_failure : Text → Text
  projection_failure message = or_else (env.redact message) (text "[REDACTED]")

  -- The message of the failure that is recorded, or `none` for a plan that is taken back.
  unfoldable pub failure_message : Fault → Option Text
  failure_message (pure_execution type message) =
      some (projection_failure (type ++ (text ": " ++ message)))
  failure_message session_closed = none
  failure_message policy = some (text "framework-error")
  failure_message framework = some (text "framework-error")
  failure_message (other repr) = some (projection_failure repr)

  abbrev pub record_failure :
      Option Text → (node_id cid : Text) → (planned : ℕ) → State V W → State V W
  unfolding fail_event cancel_event
  record_failure none node_id cid planned s = record s { emitter = cancel_event planned s.emitter }
  record_failure (some message) node_id cid planned s = record s {
    emitter = (fail_event node_id cid message (planned ∷ []) s.emitter).1;
  }

  -- The call of `env.emitter.did` stands after the handlers: what it raises is not recorded.
  abbrev pub recorded : V → (Fault ⊎ ℕ) × ProjectionEmitter V → State V W → Run (Res V) × State V W
  recorded v (inr id, e) s = (ended (ok (v, id)), record s { emitter = e })
  recorded v (inl f, e) s = (ended (raised f), record s { emitter = e })

  -- What `interpret` does after `_eval`: it records how the activation ended.
  unfoldable pub settle :
      (node_id cid : Text) → Shape → (planned : ℕ) → Run V × State V W → Run (Res V) × State V W
  unfolding did_event failure_message record_failure
  settle node_id cid shape planned (ended (ok v), s) =
      recorded v (did_event vs.put node_id cid v shape (planned ∷ []) s.emitter) s
  settle node_id cid shape planned (ended (raised e), s) =
      (ended (raised e), record_failure (failure_message e) node_id cid planned s)
  settle node_id cid shape planned (out_of_fuel, s) = (out_of_fuel, s)

  -- `env.emitter.plan`
  unfoldable pub planning : (node_id cid : Text) → List ℕ → Shape → Eff V W ℕ
  unfolding plan_event
  planning node_id cid causes shape s =
      let (id, e) = plan_event node_id cid causes shape s.emitter in
      (ended (ok id), record s { emitter = e })

  -- One activation of a node, from what evaluates it.
  unfoldable pub activation :
      ((cid : Text) → (planned : ℕ) → Eff V W V) → Node → (causes : List ℕ) → Eff V W (Res V)
  unfolding settle planning surface_shape next_cid
  activation eval n causes = do
    cid ← next_cid (info n).id
    shape ← from_result (surface_shape n)
    planned ← planning (info n).id cid causes shape
    λ s. settle (info n).id cid shape planned (eval cid planned s)

  unfoldable pub interpret : (fuel : ℕ) → Node → V → (causes : List ℕ) → Eff V W (Res V)
  unfolding evaluate activation
  interpret zero n v causes s = (out_of_fuel, s)
  interpret (suc f) n v causes s = activation (evaluate (interpret f) f n v) n causes s
