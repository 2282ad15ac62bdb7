-- ===== src/Interpreter/Calls.antt =====
-- The calls of `_eval_prim` of julep/execution/interpreter.py: which contract a call has, how often it
-- is tried, and the loop of its retries.
pub mod Allowed
pub mod Retries
use julep.Prelude.{
  ℕ, zero, suc, ◌+◌, ◌-◌, Text, text, get, Bool, true, false, not, ◌&&◌, ltb, ℤ, pos, negsuc, max_ℤ,
  Option, none, some, List, if◌then◌else◌,
}
use julep.Json.{Float, nan, infinity, neg_infinity, finite}
use julep.Ir.{Wire, int, bool, float, Ann, CallStep, Node, toolref_key, info}
use julep.Contracts.{
  ToolContract, conservative_default, contract_allows_retry, FrozenTool, ToolManifest,
}
use julep.Interpreter.Env.{
  Fault, pure_execution, session_closed, policy, framework, other, Reply, Run, ended, ok, raised,
  out_of_fuel, State, Eff, ◌>>=◌, done, lift, outside, Floats, Env,
}

abbrev pub found : Option FrozenTool → Reply FrozenTool
found none = raised policy
found (some t) = ok t

-- `bind` of julep/freeze.py on a call with a frozen hash: a missing entry is a `FreezeError`.
unfoldable pub bind : Text → ToolManifest → Reply FrozenTool
unfolding get
bind hash m = found (get hash m)

unfoldable pub call_ref_key : CallStep → ToolManifest → Reply Text
unfolding bind toolref_key
call_ref_key s m = elim s.frozen_hash [
  | none ↦ ok (toolref_key s.tool)
  | some hash ↦ elim (bind hash m) [ ok t ↦ ok (toolref_key t.ref) | raised e ↦ raised e ]
]

-- The contract of a call and whether a trusted authority asserted it: `call_contract` and
-- `call_contract_asserted`, of the entry that the call is bound to.
abbrev pub call_contract : Option FrozenTool → ToolContract
call_contract none = conservative_default
call_contract (some t) = t.contract

abbrev pub call_contract_asserted : Option FrozenTool → Bool
call_contract_asserted none = false
call_contract_asserted (some t) = t.asserted

-- The entry that a call is bound to, if it is frozen.
abbrev pub bound_tool : CallStep → ToolManifest → Reply (Option FrozenTool)
unfolding bind
bound_tool s m = elim s.frozen_hash [
  | none ↦ ok none
  | some hash ↦ elim (bind hash m) [ ok t ↦ ok (some t) | raised e ↦ raised e ]
]

abbrev type_error : Fault
type_error = other (text "TypeError()")

-- `range(1, max(1, n) + 1)`, by how many times it goes round: `max` keeps the 1 unless `n` is larger.
unfoldable pub rounds_of : Wire → Reply ℕ
rounds_of (int (pos n)) = ok (if ltb 1 n then n else 1)
rounds_of (int (negsuc n)) = ok 1
rounds_of (bool b) = ok 1
rounds_of (float (finite (pos n) den)) = if ltb (suc den) n then raised type_error else ok 1
rounds_of (float (finite (negsuc n) den)) = ok 1
rounds_of (float nan) = ok 1
rounds_of (float infinity) = raised type_error
rounds_of (float neg_infinity) = ok 1
rounds_of Wire.other = raised type_error

abbrev max_attempts : Option Ann → Option Wire
max_attempts none = none
max_attempts (some a) = a.max_attempts

abbrev retry_interval_s : Option Ann → Option Wire
retry_interval_s none = none
retry_interval_s (some a) = a.retry_interval_s

abbrev backoff_rate : Option Ann → Option Wire
backoff_rate none = none
backoff_rate (some a) = a.backoff_rate

abbrev attempts_for : Wire → Option FrozenTool → Reply ℕ
unfolding rounds_of contract_allows_retry
attempts_for w t =
    if not (call_contract_asserted t)
    then ok 1
    else if not (contract_allows_retry (call_contract t))
    then ok 1
    else rounds_of w

-- `_retry_attempts_for_call`: at least one, and more only if the frozen contract was asserted and
-- allows it.
unfoldable pub retry_attempts_for_call : Option Ann → CallStep → ToolManifest → Reply ℕ
unfolding bound_tool attempts_for
retry_attempts_for_call ann s m = elim (max_attempts ann) [
  | none ↦ ok 1
  | some w ↦ elim (bound_tool s m) [ ok t ↦ attempts_for w t | raised e ↦ raised e ]
]

-- `max(least, float(field))`, or `least` if there is no such field.
abbrev at_least : {F : Type 0} → Floats F → F → Option Wire → Reply F
at_least fl least none = ok least
at_least fl least (some w) = elim (fl.of_wire w) [
  | ok x ↦ ok (fl.max least x)
  | raised e ↦ raised e
]

unfoldable pub retry_interval_for_call : {F : Type 0} → Floats F → Option Ann → Reply F
retry_interval_for_call fl ann = at_least fl fl.zero (retry_interval_s ann)

unfoldable pub retry_backoff_for_call : {F : Type 0} → Floats F → Option Ann → Reply F
retry_backoff_for_call fl ann = at_least fl fl.one (backoff_rate ann)

-- Every exception but a policy decision is tried again.
abbrev pub retried : Fault → Bool
retried policy = false
retried _ = true

module _ {V W F : Type 0} (env : Env V W F) (fl : Floats F) where
  -- The sleep before the next attempt, and the interval of the one after.
  abbrev pub pause : (interval backoff : F) → (cid : Text) → Eff V W F
  pause interval backoff cid =
      if fl.positive interval
      then (outside (env.sleep interval cid) >>= λ _. done (fl.times interval backoff))
      else done interval

  -- What follows an attempt: its result, or the next attempt if there is one.
  abbrev pub after_attempt : Run V × State V W → (again : Option (Eff V W V)) → Run V × State V W
  after_attempt (ended (ok v), s) again = (ended (ok v), s)
  after_attempt (out_of_fuel, s) again = (out_of_fuel, s)
  after_attempt (ended (raised e), s) none = (ended (raised e), s)
  after_attempt (ended (raised e), s) (some more) =
      if retried e then more s else (ended (raised e), s)

  -- The attempts of a call, with `more` left after this one.
  unfoldable pub attempts :
      (more : ℕ) → (interval backoff : F) → Node → V → (cid : Text) → Eff V W V
  attempts zero interval backoff n v cid s = after_attempt (outside (env.run_call n v cid) s) none
  attempts (suc more) interval backoff n v cid s =
      after_attempt (outside (env.run_call n v cid) s)
        (some (pause interval backoff cid >>= λ next. attempts more next backoff n v cid))

  -- The call of a tool that is not reserved.
  unfoldable pub call_tool : Node → CallStep → V → (cid : Text) → Eff V W V
  unfolding call_ref_key retry_attempts_for_call retry_interval_for_call retry_backoff_for_call
      attempts
  call_tool n s v cid = do
    key ← lift (call_ref_key s env.manifest)
    _ ← outside (env.charge_call key)
    let tried = do
      count ← lift (retry_attempts_for_call (info n).ann s env.manifest)
      interval ← lift (retry_interval_for_call fl (info n).ann)
      backoff ← lift (retry_backoff_for_call fl (info n).ann)
      attempts (count - 1) interval backoff n v cid
    if env.native_call_retries then outside (env.run_call n v cid) else tried
