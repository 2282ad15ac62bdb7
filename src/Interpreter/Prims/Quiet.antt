-- ===== src/Interpreter/Prims/Quiet.antt =====
-- A leaf records nothing: only `interpret` does.
use julep.Prelude.{
  ℕ, zero, suc, ◌≡◌, refl, ◌∙◌, Text, text_eq, Bool, true, false, Option, none, some, if◌then◌else◌,
}
use julep.Ir.{
  ToolRef, native_tool, mcp_tool, CallStep, Step, call, think, sub, Node, info, human_gate_tool,
  sleep_tool, recv_tool, emit_tool,
}
use julep.Interpreter.Env.{
  Fault, framework, Run, ended, ok, raised, out_of_fuel, State, Eff, outside, Values, Floats, Env,
}
use julep.Interpreter.Calls.{retried, pause, after_attempt, attempts, call_tool}
use julep.Interpreter.Prims.{recv_at, emit_at, eval_call, native_call, eval_prim}
use julep.Interpreter.Eval.Keeps.{
  Finished, Quiet, bind-Quiet, done-Quiet, throw-Quiet, lift-Quiet, outside-Quiet, if-Quiet,
}

module _ {V W F : Type 0} (fl : Floats F) (env : Env V W F) where
  pause-Quiet : (interval backoff : F) (cid : Text) → Quiet (pause env fl interval backoff cid)
  pause-Quiet interval backoff cid =
      if-Quiet (fl.positive interval) _ _
        (bind-Quiet _ _ (outside-Quiet (env.sleep interval cid))
          (λ a. done-Quiet (fl.times interval backoff)))
        (done-Quiet interval)

  retry-same :
      (b : Bool) (t : State V W) (m : Eff V W V) (e : Fault)
      → Quiet m
      → (if b then m t else (ended (raised e), t)).1.emitter ≡ t.emitter
  retry-same true t m e k = k.same t
  retry-same false t m e k = refl

  after_attempt-Quiet :
      (s : State V W) (x : Run V × State V W) (m : Eff V W V)
      → x.1.emitter ≡ s.emitter
      → Quiet m
      → (after_attempt env fl x (some m)).1.emitter ≡ s.emitter
  after_attempt-Quiet s (ended (ok v), t) m h k = h
  after_attempt-Quiet s (out_of_fuel, t) m h k = h
  after_attempt-Quiet s (ended (raised e), t) m h k = retry-same (retried e) t m e k ∙ h

  last_attempt-Quiet :
      (s : State V W) (x : Run V × State V W)
      → x.1.emitter ≡ s.emitter
      → (after_attempt env fl x none).1.emitter ≡ s.emitter
  last_attempt-Quiet s (ended (ok v), t) h = h
  last_attempt-Quiet s (out_of_fuel, t) h = h
  last_attempt-Quiet s (ended (raised e), t) h = h

  last_attempt-ends :
      (x : Run V × State V W) → Finished x.0 → Finished (after_attempt env fl x none).0
  last_attempt-ends (ended (ok v), t) h = h
  last_attempt-ends (out_of_fuel, t) h = h
  last_attempt-ends (ended (raised e), t) h = h

  retry-ends :
      (b : Bool) (t : State V W) (m : Eff V W V) (e : Fault)
      → Quiet m
      → Finished (if b then m t else (ended (raised e), t)).0
  retry-ends true t m e k = k.ends t
  retry-ends false t m e k = tt

  after_attempt-ends :
      (x : Run V × State V W) (m : Eff V W V)
      → Finished x.0
      → Quiet m
      → Finished (after_attempt env fl x (some m)).0
  after_attempt-ends (ended (ok v), t) m h k = h
  after_attempt-ends (out_of_fuel, t) m h k = h
  after_attempt-ends (ended (raised e), t) m h k = retry-ends (retried e) t m e k

  attempts-Quiet :
      (more : ℕ) (interval backoff : F) (n : Node) (v : V) (cid : Text)
      → Quiet (attempts env fl more interval backoff n v cid)
  unfolding attempts
  attempts-Quiet zero interval backoff n v cid = record {
    same = λ s. last_attempt-Quiet s (outside (env.run_call n v cid) s) refl;
    ends = λ s. last_attempt-ends (outside (env.run_call n v cid) s) tt;
  }
  attempts-Quiet (suc more) interval backoff n v cid =
      let again =
        bind-Quiet (pause env fl interval backoff cid) _ (pause-Quiet interval backoff cid)
          (λ next. attempts-Quiet more next backoff n v cid) in
      record {
        same = λ s. after_attempt-Quiet s (outside (env.run_call n v cid) s) _ refl again;
        ends = λ s. after_attempt-ends (outside (env.run_call n v cid) s) _ tt again;
      }

  call_tool-Quiet :
      (n : Node) (c : CallStep) (v : V) (cid : Text) → Quiet (call_tool env fl n c v cid)
  unfolding call_tool
  call_tool-Quiet n c v cid =
      search (bind-Quiet, lift-Quiet, outside-Quiet, if-Quiet, attempts-Quiet) depth 14

module _ {V W F : Type 0} (vs : Values V) (fl : Floats F) (env : Env V W F) where
  recv_at-Quiet :
      (channel : Option Text) (n : Node) (v : V) (cid : Text)
      → Quiet (recv_at vs fl env channel n v cid)
  recv_at-Quiet none n v cid = throw-Quiet V framework
  recv_at-Quiet (some channel) n v cid = search (bind-Quiet, outside-Quiet, done-Quiet)

  emit_at-Quiet :
      (channel : Option Text) (n : Node) (v : V) (cid : Text)
      → Quiet (emit_at vs fl env channel n v cid)
  unfolding emit_at
  emit_at-Quiet none n v cid = throw-Quiet V framework
  emit_at-Quiet (some channel) n v cid = search (bind-Quiet, outside-Quiet, done-Quiet)

  native_call-Quiet :
      (name : Text) (n : Node) (c : CallStep) (v : V) (cid : Text)
      → Quiet (native_call vs fl env name n c v cid)
  unfolding native_call
  native_call-Quiet name n c v cid =
      if-Quiet (text_eq name human_gate_tool) _ _ (search (outside-Quiet)) (
        if-Quiet (text_eq name sleep_tool) _ _ (search (bind-Quiet, outside-Quiet, done-Quiet)) (
          if-Quiet (text_eq name recv_tool) _ _ (recv_at-Quiet (info n).prompt n v cid) (
            if-Quiet (text_eq name emit_tool) _ _ (emit_at-Quiet (info n).prompt n v cid)
              (call_tool-Quiet fl env n c v cid))))

  eval_call-Quiet :
      (t : ToolRef) (n : Node) (c : CallStep) (v : V) (cid : Text)
      → Quiet (eval_call vs fl env t n c v cid)
  unfolding eval_call
  eval_call-Quiet (native_tool name) n c v cid = native_call-Quiet name n c v cid
  eval_call-Quiet (mcp_tool server tool) n c v cid = call_tool-Quiet fl env n c v cid

  pub eval_prim-Quiet :
      (step : Option Step) (n : Node) (v : V) (cid : Text)
      → Quiet (eval_prim vs fl env step n v cid)
  unfolding eval_prim
  eval_prim-Quiet none n v cid = throw-Quiet V framework
  eval_prim-Quiet (some (call c)) n v cid = eval_call-Quiet c.tool n c v cid
  eval_prim-Quiet (some (think c)) n v cid = search (bind-Quiet, outside-Quiet, done-Quiet)
  eval_prim-Quiet (some (sub c)) n v cid = outside-Quiet _
