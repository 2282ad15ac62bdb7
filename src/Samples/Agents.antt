-- ===== src/Samples/Agents.antt =====
-- A transcript of one call, and a flow of two segments.
use julep.Prelude.{
  ◌≡◌, refl, ℕ, zero, suc, ◌≤◌, ◌++◌, Text, text, text_eq, get, true, false, pos, none, some, ◌↔◌,
  List, [], ◌∷◌, Result, return,
}
use julep.Json.{Json, null, get_field}
use julep.Kinds.{whole_session}
use julep.Transcript.{
  Turn, TraceEntry, transcript_for, turns_of, action_ref, fitting, drop_results, split_to_budget,
  bounded_transcript,
}
use julep.Transcript.Suffix.{tokens, starts_whole, split_exact}
use julep.Transcript.Paired.{paired, bounded-paired}
use julep.Contracts.{conservative_default}
use julep.Agent.{AgentContractMap, max_calls_for_tool, count_of, put, charge_tool_call}
use julep.Agent.Limits.{charge_all, calls_within_limit}
use julep.Continuation.{continue_with, continuation_value, run_chained}
use julep.Continuation.Settles.{Settles, run_chained_exact}

abbrev looked_up : TraceEntry
looked_up = record {
  decision = text "call";
  ref = some (text "search");
  call_id = some (text "c1");
  input_ref = none;
  output_ref = none;
  arguments = none;
  output = null;
  output_available = true;
}

abbrev no_dump : Json → Text
no_dump v = []

-- Every turn counts three.
abbrev three : Turn → ℕ
three t = 3

abbrev turns : List Turn
unfolding transcript_for
turns = transcript_for no_dump (looked_up ∷ []) whole_session null

-- The result fits and its call does not, so both are elided.
elides : (split_to_budget three (pos 4) turns).1 ≡ []
unfolding split_to_budget transcript_for turns_of action_ref fitting drop_results text_eq
elides = refl

split_exact_example :
    ((split_to_budget three (pos 4) turns).0 ++ (split_to_budget three (pos 4) turns).1 ≡ turns)
    × (tokens three (split_to_budget three (pos 4) turns).1 ≤ 4)
    × (starts_whole (split_to_budget three (pos 4) turns).1 ≡ true)
split_exact_example = split_exact three (pos 4) turns

bounded-paired_example :
    paired none (
      bounded_transcript three (pos 7) (transcript_for no_dump (looked_up ∷ []) whole_session null))
    ≡ true
bounded-paired_example = bounded-paired no_dump three (pos 7) (looked_up ∷ []) whole_session null

-- The first segment asks to be run again on null, and the second gives null.
abbrev twice : ℕ → Json → Result Json
unfolding continue_with
twice zero v = return (continue_with v)
twice (suc n) v = return v

settles : run_chained twice null (pos 5) ≡ return null
unfolding run_chained continue_with continuation_value get_field text_eq
settles = refl

run_chained_exact_example :
    (run_chained twice null (pos 5) ≡ return null)
    ↔ ((n : ℕ) × (n ≤ 5) × Settles twice 0 null null n)
run_chained_exact_example = run_chained_exact twice null null (pos 5)

abbrev pay : Text
pay = text "pay"

abbrev once : AgentContractMap
once =
    (
      pay,
      record {
        contract = conservative_default;
        asserted = true;
        approval = false;
        max_calls = some (pos 1);
      },
    )
    ∷ []

abbrev own_name : Text → Text
own_name tool = tool

limit_is_one : max_calls_for_tool pay once ≡ some (pos 1)
unfolding max_calls_for_tool get text_eq
limit_is_one = refl

second_denied : (charge_all once own_name pay (pay ∷ pay ∷ [])).0 ≡ 1
unfolding charge_all charge_tool_call max_calls_for_tool count_of put get text_eq
second_denied = refl

calls_within_limit_example : (charge_all once own_name pay (pay ∷ pay ∷ [])).0 ≤ 1
calls_within_limit_example =
    calls_within_limit once own_name pay (pos 1) (pay ∷ pay ∷ []) limit_is_one
