-- ===== src/Interpreter/Prims.antt =====
-- `_eval_prim` of julep/execution/interpreter.py: the steps of a leaf.
pub mod Quiet
use julep.Prelude.{ℕ, Text, text_eq, pos, Option, none, some, or_else, List, [], ◌∷◌, if◌then◌else◌}
use julep.Json.{Json, Json}
use julep.Ir.{
  human_gate_tool, sleep_tool, recv_tool, emit_tool, native_tool, mcp_tool, ToolRef, CallStep, Step,
  call, think, sub, Node, info,
}
use julep.Interpreter.Env.{framework, Eff, ◌>>=◌, done, throw, lift, outside, Values, Floats, Env}
use julep.Interpreter.Calls.{call_tool}
use julep.Interpreter.Parts.{timeout_of, batchable_of, override}

-- What an evaluation returns: a value, and the id of the event that recorded it.
abbrev pub Res : Type 0 → Type 0
Res V = V × ℕ

abbrev pub values_of : {V : Type 0} → List (V × ℕ) → List V
values_of [] = []
values_of ((v, e) ∷ rs) = v ∷ values_of rs

module _ {V W F : Type 0} (env : Env V W F) where
  abbrev pub apply_pure : Text → Option Json → V → Eff V W V
  apply_pure name args v = do fn ← lift (env.get_pure name); lift (fn args v)

  -- A named pure over the collected results, if there is one.
  abbrev pub reduce : Option Text → V → Eff V W V
  reduce none v = done v
  reduce (some name) v = apply_pure name none v

module _ {V W F : Type 0} (vs : Values V) (fl : Floats F) (env : Env V W F) where
  abbrev pub recv_at : (channel : Option Text) → Node → V → (cid : Text) → Eff V W V
  recv_at none n v cid = throw framework
  recv_at (some channel) n v cid = do
    msg ← outside (env.recv channel cid (timeout_of (info n).ann))
    done (vs.received v msg)

  -- The message of an emit: what its static arguments give, or the value.
  abbrev pub message : Option Json → V → V
  message none v = v
  message (some j) v = vs.of_json j

  abbrev pub emit_at : (channel : Option Text) → Node → V → (cid : Text) → Eff V W V
  unfolding override
  emit_at none n v cid = throw framework
  emit_at (some channel) n v cid = do
    _ ← outside (env.emit channel (message (override (info n).args) v) cid)
    done v

  -- A native call: the reserved tools are handled here, and any other is charged and called.
  unfoldable pub native_call : Text → Node → CallStep → V → (cid : Text) → Eff V W V
  unfolding call_tool text_eq emit_at
  native_call name n s v cid =
      if text_eq name human_gate_tool
      then outside (env.human_gate v cid (timeout_of (info n).ann))
      else if text_eq name sleep_tool
      then (outside (env.sleep (fl.of_int (or_else (timeout_of (info n).ann) (pos 0))) cid) >>= λ _.
          done v)
      else if text_eq name recv_tool
      then recv_at (info n).prompt n v cid
      else if text_eq name emit_tool
      then emit_at (info n).prompt n v cid
      else call_tool env fl n s v cid

  abbrev pub eval_call : ToolRef → Node → CallStep → V → (cid : Text) → Eff V W V
  unfolding native_call
  eval_call (native_tool name) n s v cid = native_call name n s v cid
  eval_call (mcp_tool server tool) n s v cid = call_tool env fl n s v cid

  -- `_eval_prim`
  unfoldable pub eval_prim : Option Step → Node → V → (cid : Text) → Eff V W V
  unfolding eval_call
  eval_prim none n v cid = throw framework
  eval_prim (some (call s)) n v cid = eval_call s.tool n s v cid
  eval_prim (some (think s)) n v cid = do
    out ←
        outside (
          env.invoke_reasoner s.reasoner v cid (timeout_of (info n).ann)
            (batchable_of (info n).ann))
    done (vs.reply out)
  eval_prim (some (sub s)) n v cid = outside (env.run_sub s.ref s.contract v cid (info n).id)
