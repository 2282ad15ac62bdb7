-- ===== src/Samples/Evaluations.antt =====
-- A flow of two calls, evaluated with a tool that fails once.
use julep.Prelude.{
  ℕ, zero, suc, text_eq, ◌+◌, ◌*◌, ◌≤◌, ◌≡◌, refl, ◌⊎◌, Text, text, true, false, Option, none, some,
  List, [], ◌∷◌, ◌++◌, ltb, pos, if◌then◌else◌, arith,
}
use julep.Json.{Json, null, arr, Items, nil, cons}
use julep.Kinds.{Op}
use julep.Ir.{race, int, call, native_tool, CallStep, Ann, Node, walk}
use julep.Projection.{ProjectionEvent, pending}
use julep.Projection.Paired.{Paired}
use julep.Interpreter.Env.{other, Reply, ok, raised, State, Values, Floats, Env, ◌>>=◌}
use julep.Interpreter.Calls.{call_tool}
use julep.Interpreter.Calls.Allowed.{MayRepeat}
use julep.Interpreter.Calls.Retries.{calls_bounded}
use julep.Interpreter.Eval.{interpret}
use julep.Interpreter.Eval.Keeps.{Finished}
use julep.Interpreter.Eval.Settled.{interpret_paired, interpret_not_pending}
use julep.Interpreter.Eval.Total.{interpret_ends}
use julep.Interpreter.Race.{Wake, success, failure, process_done, race_first}
use julep.Interpreter.Race.Sound.{Right, race_sound}
use julep.Interpreter.Race.Left.{HasEnded}
use julep.Interpreter.Race.Settles.{race_settles}
use julep.Samples.Flows.{blank, leaf_of, pair_of}
use julep.Samples.Plans.{manifest}
use julep.Samples.OneByOne.{one_by_one, one_by_one-InOrder}

abbrev items_of : Items → List Json
items_of nil = []
items_of (cons j js) = j ∷ items_of js

abbrev list_of : Json → Option (List Json)
list_of (arr js) = some (items_of js)
list_of _ = none

abbrev packed : List Json → Items
packed [] = nil
packed (j ∷ js) = cons j (packed js)

abbrev values : Values Json
values = record {
  items = list_of;
  listed = λ js. arr (packed js);
  received = λ v msg. msg;
  holds = λ v. ok true;
  put = λ v. none;
  case_key = λ v. ok none;
  split = λ v. none;
  of_json = λ v. v;
  agent_result = ok;
  reply = λ v. v;
}

abbrev floats : Floats ℕ
floats = record {
  zero = 0;
  one = 1;
  of_int = λ n. 0;
  of_wire = λ w. ok 1;
  max = λ a b. if ltb a b then b else a;
  positive = ltb 0;
  times = λ a b. a * b;
}

-- The world counts the calls, and the first one fails.
abbrev tool : Node → Json → Text → ℕ → Reply Json × ℕ
tool n v cid w = if ltb 0 w then (ok v, suc w) else (raised (other (text "busy")), suc w)

abbrev env : Env Json ℕ ℕ
env = record {
  manifest = manifest;
  native_call_retries = false;
  get_pure = λ name. ok (λ args v. ok v);
  redact = some;
  charge_call = λ key w. (ok tt, w);
  run_call = tool;
  invoke_reasoner = λ r v cid t b w. (ok v, w);
  run_sub = λ r c v cid n w. (ok v, w);
  run_agent = λ c v cid i w. (ok v, w);
  compile_plan = λ p v cid w. (raised (other (text "no planner")), w);
  human_gate = λ v cid t w. (ok v, w);
  sleep = λ s cid w. (ok tt, w);
  recv = λ c cid t w. (ok null, w);
  emit = λ c v cid w. (ok tt, w);
}

abbrev thrice : Ann
thrice = record {
  cost = none;
  risk = none;
  cache = none;
  effect = none;
  timeout = none;
  max_attempts = some (int (pos 3));
  retry_interval_s = none;
  backoff_rate = none;
  batchable = false;
}

abbrev fetch : CallStep
fetch = record { tool = native_tool (text "fetch"); ctx = none; frozen_hash = some (text "fetch") }

abbrev fetching : Node
fetching =
    leaf_of (record (blank Op.prim (text "a")) { ann = some thrice; step = some (call fetch) })

abbrev flow : Node
flow = pair_of (blank Op.seq (text "both")) fetching (leaf_of (blank Op.ident (text "same")))

abbrev start : State Json ℕ
start = record { cids = 0; emitter = record { ids = 0; events = [] }; world = 0 }

interpret_ends_example : Finished (interpret values floats env one_by_one 3 flow null [] start).0
unfolding walk
interpret_ends_example =
    interpret_ends values floats env one_by_one one_by_one-InOrder 3 flow null [] start
      (refl, (refl, (refl, tt))) (omega arith)

ended_run : Finished (interpret values floats env one_by_one 3 flow null [] start).0
unfolding walk
ended_run =
    interpret_ends values floats env one_by_one one_by_one-InOrder 3 flow null [] start
      (refl, (refl, (refl, tt))) (omega arith)

interpret_paired_example :
    (t : List (ProjectionEvent Json)) × ((interpret values floats env one_by_one 3 flow null []
        start).1.emitter.events
      ≡ [] ++ t)
    × Paired t
interpret_paired_example =
    interpret_paired values floats env one_by_one (λ v. refl) one_by_one-InOrder 3 flow null []
      start tt ended_run

nothing_yet : pending (start.emitter.events) ≡ []
unfolding pending
nothing_yet = refl

interpret_not_pending_example :
    pending (interpret values floats env one_by_one 3 flow null [] start).1.emitter.events ≡ []
interpret_not_pending_example =
    interpret_not_pending values floats env one_by_one (λ v. refl) one_by_one-InOrder 3 flow null []
      start tt ended_run nothing_yet

abbrev after_call : ℕ
unfolding call_tool
after_call = (call_tool env floats fetching fetch null (text "a@1") start).1.world

-- The first attempt fails and the second succeeds.
two_calls : after_call ≡ 2
unfolding after_call ◌>>=◌ text_eq
two_calls = refl

tool-calls : (n : Node) (v : Json) (cid : Text) (w : ℕ) → (tool n v cid w).1 ≡ suc w
tool-calls n v cid w = ground arith

calls_bounded_example :
    ((call_tool env floats fetching fetch null (text "a@1") start).1.world ≤ 0 + 1)
    ⊎ ((k : ℕ) × MayRepeat (some thrice) fetch manifest k
        × ((call_tool env floats fetching fetch null (text "a@1") start).1.world ≤ 0 + k))
calls_bounded_example =
    calls_bounded floats env (λ w. w) tool-calls (λ x cid w. refl) (λ key w. refl) fetching fetch
      null (text "a@1") start refl

-- The second of two branches succeeds, and then the first fails.
abbrev first_wake : Wake Text Text
first_wake = record {
  done = λ i. elim i [ zero ↦ none | suc j ↦ some (success (text "b")) ];
  timer = false;
}

abbrev second_wake : Wake Text Text
second_wake = record { done = λ i. some (failure (text "late")); timer = false }

abbrev wakes : List (Wake Text Text)
wakes = first_wake ∷ second_wake ∷ second_wake ∷ second_wake ∷ []

race_sound_example : Right wakes 1 2 (race_first race 1 none 2 wakes)
race_sound_example = race_sound race 1 none 2 wakes (omega arith)

race_settles_example : HasEnded (race_first race 1 none 2 wakes)
unfolding process_done
race_settles_example =
    race_settles race 1 none 2 wakes (refl, (refl, (refl, (refl, tt)))) (omega arith)
