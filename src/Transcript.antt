-- ===== src/Transcript.antt =====
-- julep/transcript.py: the transcript of an agent, and its bound. `dumps` is the canonical JSON text of
-- a value, and `cost` the count of a turn's text by the token counter.
pub mod Suffix
pub mod Paired
use mathlib.Core.List.{reverse}
use julep.Prelude.{
  ℕ, zero, suc, ◌+◌, ◌-◌, Text, text, text_eq, Bool, true, false, not, ◌&&◌, ◌||◌, ◌==◌, is_some,
  or_else, decimal, ℤ, pos, ltb_ℤ, Option, none, some, List, [], ◌∷◌, ◌++◌, length, take,
  if◌then◌else◌,
}
use julep.Json.{Json, obj, arr, str, null, Items, nil, cons, Fields, field, end, get_field}
use julep.Kinds.{ContextScope, whole_session, summary}

pub data Role : Type 0 where
  user assistant tool system : Role

-- A key that a turn does not have is `none`.
pub record Turn : Type 0 where
  pub role : Role
  pub ref : Option Json
  pub content : Option Json
  pub content_ref : Option Text
  pub tool_call_id : Option Text
  pub tool_calls : Option Json

abbrev pub plain_turn : Role → Option Json → Turn
plain_turn r content = record {
  role = r;
  ref = none;
  content = content;
  content_ref = none;
  tool_call_id = none;
  tool_calls = none;
}

-- The view of a trace entry. `arguments` is none for `None`.
pub record TraceEntry : Type 0 where
  pub decision : Text
  pub ref : Option Text
  pub call_id : Option Text
  pub input_ref : Option Text
  pub output_ref : Option Text
  pub arguments : Option Json
  pub output : Json
  pub output_available : Bool

-- `key.split("/", 1)`, if there is a slash.
unfoldable pub split_slash : Text → Option (Text × Text)
split_slash [] = none
split_slash (c ∷ t) =
    let rest = split_slash t in
    if c == 47 then some ([], t) else elim rest [ none ↦ none | some (a, b) ↦ some (c ∷ a, b) ]

abbrev native_ref : Text → Json
native_ref key = obj (field (text "kind") (str (text "native")) (field (text "name") (str key) end))

abbrev tool_ref : Text → Option (Text × Text) → Json
tool_ref key none = native_ref key
tool_ref key (some (server, name)) = obj (
    field (text "kind") (str (text "mcp"))
      (field (text "server") (str server) (field (text "tool") (str name) end)))

abbrev text_of : Option Text → Text
text_of key = or_else key []

unfoldable pub action_ref : Text → Option Text → Json
unfolding split_slash text_eq
action_ref decision key =
    if text_eq decision (text "sub")
    then obj (field (text "kind") (str (text "sub")) (field (text "ref") (str (text_of key)) end))
    else tool_ref (text_of key) (split_slash (text_of key))

-- `policy.scope in TRANSCRIPT_SCOPES`
abbrev pub in_transcript_scopes : ContextScope → Bool
in_transcript_scopes whole_session = true
in_transcript_scopes summary = true
in_transcript_scopes _ = false

abbrev is_action : Text → Bool
is_action decision = text_eq decision (text "call") || text_eq decision (text "sub")

module _ (dumps : Json → Text) where
  abbrev arguments_text : Option Json → Text
  arguments_text none = []
  arguments_text (some v) = dumps v

  abbrev calls_of : TraceEntry → Option Text → Option Json
  calls_of e none = none
  calls_of e (some id) = some (
      arr (
        cons
          (obj (
            field (text "id") (str id) (
              field (text "type") (str (text "function")) (
                field (text "function")
                  (obj (
                    field (text "name") (str (text_of e.ref))
                      (field (text "arguments") (str (arguments_text e.arguments)) end)))
                  end))))
          nil))

  abbrev pub action_turn : TraceEntry → Turn
  unfolding action_ref
  action_turn e = record {
    role = assistant;
    ref = some (action_ref e.decision e.ref);
    content = none;
    content_ref = e.input_ref;
    tool_call_id = e.call_id;
    tool_calls = calls_of e e.call_id;
  }

  abbrev output_content : TraceEntry → Option Text → Option Json
  output_content e (some r) = none
  output_content e none = if e.output_available then some e.output else none

  abbrev pub result_turn : TraceEntry → Turn
  unfolding action_ref
  result_turn e = record {
    role = tool;
    ref = some (action_ref e.decision e.ref);
    content = output_content e e.output_ref;
    content_ref = e.output_ref;
    tool_call_id = e.call_id;
    tool_calls = none;
  }

  -- The loop over the trace.
  unfoldable pub turns_of : List TraceEntry → List Turn
  unfolding action_ref text_eq
  turns_of [] = []
  turns_of (e ∷ es) =
      let rest = turns_of es in
      if is_action e.decision then action_turn e ∷ result_turn e ∷ rest else rest

  unfoldable pub transcript_for : List TraceEntry → ContextScope → (input : Json) → List Turn
  unfolding turns_of
  transcript_for trace scope input =
      if in_transcript_scopes scope then plain_turn user (some input) ∷ turns_of trace else []

abbrev is_user : Role → Bool
is_user user = true
is_user _ = false

unfoldable pub render_opening_ask : List Turn → Json → List Turn
render_opening_ask [] user_text = []
render_opening_ask (t ∷ ts) user_text =
    let rest = render_opening_ask ts user_text in
    if is_user t.role then record t { content = some user_text } ∷ ts else t ∷ rest

abbrev pub is_tool : Role → Bool
is_tool tool = true
is_tool _ = false

-- `turn.get("role") == "tool" and "tool_call_id" in turn`
abbrev pub is_tool_result : Turn → Bool
is_tool_result t = is_tool t.role && is_some t.tool_call_id

module _ (cost : Turn → ℕ) (max_tokens : ℤ) where
  -- The turns that the loop keeps of the reversed transcript, newest first.
  unfoldable pub fitting : ℕ → List Turn → List Turn
  fitting total [] = []
  fitting total (t ∷ ts) =
      let rest = fitting (total + cost t) ts in
      if ltb_ℤ max_tokens (pos (total + cost t)) then [] else t ∷ rest

  -- Tool results whose call is elided go with it.
  unfoldable pub drop_results : (elided kept : List Turn) → List Turn × List Turn
  drop_results elided [] = (elided, [])
  drop_results elided (t ∷ ts) =
      let more = drop_results (elided ++ (t ∷ [])) ts in
      if is_tool_result t then more else (elided, t ∷ ts)

  unfoldable pub split_to_budget : List Turn → List Turn × List Turn
  unfolding fitting drop_results
  split_to_budget turns =
      let kept = reverse (fitting 0 (reverse turns)) in
      drop_results (take (length turns - length kept) turns) kept

  unfoldable pub elision_marker : ℕ → Turn
  unfolding decimal
  elision_marker count =
      plain_turn system (some (str (decimal count ++ text " earlier turns elided")))

  abbrev pub mark_elided : (elided kept : List Turn) → List Turn
  unfolding elision_marker
  mark_elided [] kept = kept
  mark_elided (e ∷ es) kept = elision_marker (length (e ∷ es)) ∷ kept

  unfoldable pub bounded_transcript : List Turn → List Turn
  unfolding split_to_budget elision_marker
  bounded_transcript turns = let (elided, kept) = split_to_budget turns in mark_elided elided kept
