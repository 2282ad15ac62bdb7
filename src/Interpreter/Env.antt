-- ===== src/Interpreter/Env.antt =====
-- What an evaluation needs from outside, `Env` of julep/execution/interpreter.py, and computations
-- that may raise. The concurrency of an environment and Python's values are arguments.
use julep.Prelude.{
  ◌≡◌, ℕ, ◌+◌, Text, text, decimal, Bool, Option, List, ◌++◌, ℤ, Result, return, raise, Exception,
}
use julep.Json.{Json}
use julep.Ir.{Wire, SubContract, MergeKind, Info, Node}
use julep.Contracts.{ToolManifest}
use julep.Projection.{ProjectionEmitter}

-- The exceptions, as far as the interpreter tells them apart.
pub data Fault : Type 0 where
  -- `PureExecutionError`, with its type and its message
  pure_execution : (type message : Text) → Fault
  session_closed : Fault
  -- an error in `POLICY_ERRORS`
  policy : Fault
  -- another `JulepError`
  framework : Fault
  -- another `Exception`, with its `repr`
  other : (repr : Text) → Fault

-- What a piece of code replies: a value or an exception.
pub data Reply (A : Type 0) : Type 0 where
  ok : A → Reply A
  raised : Fault → Reply A

pub ok_injective : {A : Type 0} {a b : A} → ok a ≡ ok b → a ≡ b
ok_injective h = cc

-- `out_of_fuel` belongs to the model: the code goes on.
pub data Run (A : Type 0) : Type 0 where
  ended : Reply A → Run A
  out_of_fuel : Run A

-- The counter of `next_cid`, the projection, and all else that an environment keeps.
pub record State (V W : Type 0) : Type 0 where
  pub cids : ℕ
  pub emitter : ProjectionEmitter V
  pub world : W

abbrev pub Eff : (V W A : Type 0) → Type 0
Eff V W A = State V W → Run A × State V W

-- An exception of the analyses that the interpreter calls.
abbrev pub fault_of : Exception → Fault
fault_of Exception.assertion_error = other (text "AssertionError()")
fault_of Exception.attribute_error = other (text "AttributeError()")
fault_of Exception.overflow_error = other (text "OverflowError()")
fault_of Exception.value_error = other (text "ValueError()")
fault_of Exception.capability_denied = policy
fault_of Exception.plan_rejected = policy
fault_of Exception.julep_error = framework
fault_of Exception.gc_error = other (text "GCError()")

module _ {V W : Type 0} where
  abbrev pub step : {A B : Type 0} → Run A × State V W → (A → Eff V W B) → Run B × State V W
  step (ended (ok a), s) f = f a s
  step (ended (raised e), s) f = (ended (raised e), s)
  step (out_of_fuel, s) f = (out_of_fuel, s)

  infixl 5 ◌>>=◌
  unfoldable pub ◌>>=◌ : {A B : Type 0} → Eff V W A → (A → Eff V W B) → Eff V W B
  ◌>>=◌ m f s = step (m s) f

  abbrev pub done : {A : Type 0} → A → Eff V W A
  done a s = (ended (ok a), s)

  abbrev pub throw : {A : Type 0} → Fault → Eff V W A
  throw e s = (ended (raised e), s)

  abbrev pub lift : {A : Type 0} → Reply A → Eff V W A
  lift r s = (ended r, s)

  abbrev pub from_result : {A : Type 0} → Result A → Eff V W A
  from_result (return a) s = (ended (ok a), s)
  from_result (raise e) s = (ended (raised (fault_of e)), s)

  -- An assertion that a field is given.
  abbrev pub required : {A : Type 0} → Option A → Eff V W A
  required (Option.some a) s = (ended (ok a), s)
  required Option.none s = (ended (raised (other (text "AssertionError()"))), s)

  -- An effect of the environment.
  abbrev pub outside : {A : Type 0} → (W → Reply A × W) → Eff V W A
  outside act s = let (r, w) = act s.world in (ended r, record s { world = w })

-- What the interpreter asks of a Python value.
pub record Values (V : Type 0) : Type 0 where
  -- `list(value)` of a list or a tuple
  pub items : V → Option (List V)
  pub listed : List V → V
  -- `{"carrier": value, "msg": msg}`
  pub received : (value msg : V) → V
  -- `bool(value)`
  pub holds : V → Reply Bool
  -- what the value store of the projection raises on it, if anything: it is kept as JSON
  pub put : V → Option Fault
  -- the text that a key of `cases` has to be, if the value can be one
  pub case_key : V → Reply (Option Text)
  -- the two parts of a tuple of two
  pub split : V → Option (V × V)
  pub of_json : Json → V
  -- `raise_for_agent_terminal`
  pub agent_result : V → Reply V
  -- the reply of a reasoner, out of `_unwrap_julep_meta`
  pub reply : V → V

-- Python's floats, in which a retry interval is counted.
pub record Floats (F : Type 0) : Type 0 where
  pub zero : F
  pub one : F
  pub of_int : ℤ → F
  -- `float(field)` of a retry field
  pub of_wire : Wire → Reply F
  pub max : F → F → F
  pub positive : F → Bool
  pub times : F → F → F

-- A registered function on its static arguments and a value.
abbrev pub Pure : Type 0 → Type 0
Pure V = Option Json → V → Reply V

pub record Env (V W F : Type 0) : Type 0 where
  pub manifest : ToolManifest
  pub native_call_retries : Bool
  pub get_pure : Text → Reply (Pure V)
  -- `redact_failure`, or `none` if it raises or returns no text
  pub redact : Text → Option Text
  pub charge_call : Text → W → Reply (Unit {0}) × W
  pub run_call : Node → V → (cid : Text) → W → Reply V × W
  pub invoke_reasoner :
      Text → V → (cid : Text) → (timeout : Option ℤ) → (batchable : Bool) → W → Reply V × W
  pub run_sub : Text → SubContract → V → (cid node_id : Text) → W → Reply V × W
  pub run_agent : Text → V → (cid : Text) → (config : Info) → W → Reply V × W
  pub compile_plan : Text → V → (cid : Text) → W → Reply Node × W
  pub human_gate : V → (cid : Text) → (timeout : Option ℤ) → W → Reply V × W
  pub sleep : F → (cid : Text) → W → Reply (Unit {0}) × W
  pub recv : Text → (cid : Text) → (timeout : Option ℤ) → W → Reply V × W
  pub emit : Text → V → (cid : Text) → W → Reply (Unit {0}) × W

-- How an environment runs branches: all of them, or until some have won.
pub record Concurrency (V W : Type 0) : Type 0 where
  pub gather : List (Eff V W (V × ℕ)) → Eff V W (List (V × ℕ))
  pub race_first :
      MergeKind → (m : ℤ) → (hedge_ms : Option ℤ) → List (Eff V W (V × ℕ)) → Eff V W (List (V × ℕ))

-- `InMemoryEnv.next_cid`
unfoldable pub next_cid : {V W : Type 0} → Text → Eff V W Text
unfolding decimal
next_cid node_id s =
    (ended (ok (node_id ++ (text "@" ++ decimal (s.cids + 1)))), record s { cids = s.cids + 1 })
