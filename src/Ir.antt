-- ===== src/Ir.antt =====
-- julep/ir.py: the intermediate representation. A flow is a finite tree of nodes.
pub mod Walk
use julep.Prelude.{
  Text, text, Bool, false, true, ℕ, ℤ, Option, none, some, List, [], ◌∷◌, ◌++◌, text_eq, ◌||◌,
}
use julep.Json.{Json, Float}
use julep.Kinds.{Op, Shape, Effect, ContextScope, SummaryPolicy}

-- Reserved native tools, which the interpreter handles itself.
abbrev pub human_gate_tool : Text
human_gate_tool = text "__human_gate__"

abbrev pub sleep_tool : Text
sleep_tool = text "__sleep__"

abbrev pub recv_tool : Text
recv_tool = text "__recv__"

abbrev pub emit_tool : Text
emit_tool = text "__emit__"

pub data ToolRef : Type 0 where
  native_tool : (name : Text) → ToolRef
  mcp_tool : (server tool : Text) → ToolRef

unfoldable pub toolref_key : ToolRef → Text
toolref_key (native_tool name) = name
toolref_key (mcp_tool server tool) = server ++ (text "/" ++ tool)

pub record ChannelRef : Type 0 where
  pub name : Text
  pub payload : Option Json

pub record ContextPolicy : Type 0 where
  pub scope : ContextScope
  pub redact_pii : Bool
  pub max_tokens : Option ℤ

pub record CacheHint : Type 0 where
  pub key : Option Text
  pub ttl_s : Option ℤ

-- What a retry field can hold after decoding: `from_json` checks no type.
pub data Wire : Type 0 where
  int : ℤ → Wire
  bool : Bool → Wire
  float : Float → Wire
  other : Wire

-- Costs are whole multiples of the smallest unit that the flow uses.
pub record Ann : Type 0 where
  pub cost : Option ℤ
  pub risk : Option Text
  pub cache : Option CacheHint
  pub effect : Option Effect
  pub timeout : Option ℤ
  pub max_attempts : Option Wire
  pub retry_interval_s : Option Wire
  pub backoff_rate : Option Wire
  pub batchable : Bool

pub record CallStep : Type 0 where
  pub tool : ToolRef
  pub ctx : Option ContextPolicy
  pub frozen_hash : Option Text

pub record ThinkStep : Type 0 where
  pub reasoner : Text
  pub ctx : Option ContextPolicy

pub record SubContract : Type 0 where
  pub shape : Shape
  pub summary_policy : Option SummaryPolicy
  pub queue : Option Text

pub record SubStep : Type 0 where
  pub ref : Text
  pub contract : SubContract

pub data Step : Type 0 where
  call : CallStep → Step
  think : ThinkStep → Step
  sub : SubStep → Step

-- The kind is a free string on the wire; `unknown` is one that no code names.
pub data MergeKind : Type 0 where
  all race hedge quorum : MergeKind
  unknown : Text → MergeKind

pub record Merge : Type 0 where
  pub kind : MergeKind
  pub hedge_ms : Option ℤ
  pub quorum_m : Option ℤ
  pub reducer : Option Text

-- `kind in RACE_LIKE_MERGES`
abbrev pub race_like : MergeKind → Bool
race_like race = true
race_like hedge = true
race_like quorum = true
race_like _ = false

-- The equality of two kinds, as strings.
unfoldable pub same_kind : MergeKind → MergeKind → Bool
same_kind all all = true
same_kind race race = true
same_kind hedge hedge = true
same_kind quorum quorum = true
same_kind (unknown a) (unknown b) = text_eq a b
same_kind _ _ = false

pub record SourceSpan : Type 0 where
  pub file : Text
  pub line : ℕ
  pub function : Option Text
  pub text : Option Text

-- The fields of a `Node` that hold no node.
pub record Info : Type 0 where
  pub op : Op
  pub id : Text
  pub ann : Option Ann
  pub step : Option Step
  pub select : Option Text
  pub bound : Option ℤ
  pub state_schema : Option Json
  pub channels : Option (List ChannelRef)
  pub controller : Option Text
  pub pure : Option Text
  pub args : Option Json
  pub merge : Option Merge
  pub prompt : Option Text
  pub tools : Option (List Text)
  pub tool_aliases : Option (List (Text × Text))
  pub tool_defs : Option Json
  pub tool_contracts : Option Json
  pub subflows : Option (List Text)
  pub budget : Option Json
  pub max_rounds : Option ℤ
  pub ctx : Option ContextPolicy
  pub summarizer : Option Text
  pub round_note : Option Text
  pub native_tools : Option Bool
  pub require_tool_call : Option Bool
  pub output_schema : Option Json
  pub output_retries : Option ℤ
  pub subflow_queues : Option (List (Text × Text))
  pub source : Option SourceSpan

mutual
  -- The node children are `left`, `right`, `body`, `plan`, `cases` and `default`, in this order.
  pub data Node : Type 0 where
    node : Info → (left right body plan : Slot) → CaseSlot → (default : Slot) → Node

  -- A field that holds a node or `None`.
  pub data Slot : Type 0 where
    absent : Slot
    present : Node → Slot

  pub data CaseSlot : Type 0 where
    no_cases : CaseSlot
    switch : Cases → CaseSlot

  -- The entries of the `cases` dict, in the order of `sorted(cases)`.
  pub data Cases : Type 0 where
    end : Cases
    case : Text → Node → Cases → Cases

abbrev pub info : Node → Info
info (node i l r b p c d) = i

abbrev pub left : Node → Slot
left (node i l r b p c d) = l

abbrev pub right : Node → Slot
right (node i l r b p c d) = r

abbrev pub body : Node → Slot
body (node i l r b p c d) = b

abbrev pub plan : Node → Slot
plan (node i l r b p c d) = p

abbrev pub cases : Node → CaseSlot
cases (node i l r b p c d) = c

abbrev pub default : Node → Slot
default (node i l r b p c d) = d

abbrev pub slot_nodes : Slot → List Node
slot_nodes absent = []
slot_nodes (present n) = n ∷ []

abbrev pub case_nodes : Cases → List Node
case_nodes end = []
case_nodes (case k n cs) = n ∷ case_nodes cs

abbrev pub case_slot_nodes : CaseSlot → List Node
case_slot_nodes no_cases = []
case_slot_nodes (switch cs) = case_nodes cs

unfoldable pub children : Node → List Node
children (node i l r b p c d) =
    slot_nodes l
    ++ (slot_nodes r ++ (slot_nodes b ++ (slot_nodes p ++ (case_slot_nodes c ++ slot_nodes d))))

-- Pre-order traversal over the node and all descendants.
unfoldable mutual
  pub walk : Node → List Node
  walk (node i l r b p c d) =
      node i l r b p c d
      ∷ (walk_slot l
          ++ (walk_slot r ++ (walk_slot b ++ (walk_slot p ++ (walk_case_slot c ++ walk_slot d)))))

  pub walk_slot : Slot → List Node
  walk_slot absent = []
  walk_slot (present n) = walk n

  pub walk_case_slot : CaseSlot → List Node
  walk_case_slot no_cases = []
  walk_case_slot (switch cs) = walk_cases cs

  pub walk_cases : Cases → List Node
  walk_cases end = []
  walk_cases (case k n cs) = walk n ++ walk_cases cs

-- `isinstance(step, CallStep)`: the call of a prim leaf.
abbrev pub call_of : Option Step → Option CallStep
call_of (some (call s)) = some s
call_of _ = none

abbrev add_ref : Option CallStep → List ToolRef → List ToolRef
add_ref none refs = refs
add_ref (some s) refs = s.tool ∷ refs

refs_of : List Node → List ToolRef
refs_of [] = []
refs_of (n ∷ ns) = add_ref (call_of (info n).step) (refs_of ns)

pub tool_refs : Node → List ToolRef
tool_refs n = refs_of (walk n)
