-- ===== src/Samples/Flows.antt =====
-- Builders for small flows.
use julep.Prelude.{Text, text, Option, none, some, [], ◌∷◌, pos}
use julep.Kinds.{Op, Shape}
use julep.Ir.{
  Step, call, sub, native_tool, ChannelRef, Info, Node, node, absent, present, no_cases, recv_tool,
  emit_tool,
}

abbrev pub blank : Op → Text → Info
blank op id = record {
  op = op;
  id = id;
  ann = none;
  step = none;
  select = none;
  bound = none;
  state_schema = none;
  channels = none;
  controller = none;
  pure = none;
  args = none;
  merge = none;
  prompt = none;
  tools = none;
  tool_aliases = none;
  tool_defs = none;
  tool_contracts = none;
  subflows = none;
  budget = none;
  max_rounds = none;
  ctx = none;
  summarizer = none;
  round_note = none;
  native_tools = none;
  require_tool_call = none;
  output_schema = none;
  output_retries = none;
  subflow_queues = none;
  source = none;
}

abbrev pub leaf_of : Info → Node
leaf_of i = node i absent absent absent absent no_cases absent

abbrev pub pair_of : Info → Node → Node → Node
pair_of i l r = node i (present l) (present r) absent absent no_cases absent

abbrev pub call_step : Text → Option Step
call_step name = some (call (record { tool = native_tool name; ctx = none; frozen_hash = none }))

abbrev pub sub_step : Shape → Option Step
sub_step s = some (
    sub (record {
      ref = text "child";
      contract = record { shape = s; summary_policy = none; queue = none };
    }))

abbrev pub call_node : Text → Text → Node
call_node id name = leaf_of (record (blank Op.prim id) { step = call_step name })

abbrev pub channel_node : Text → Text → Text → Node
channel_node id tool channel =
    leaf_of (record (blank Op.prim id) { step = call_step tool; prompt = some channel })

abbrev channel : Text → ChannelRef
channel name = record { name = name; payload = none }

-- recv "in", then emit "out".
abbrev pub turn : Node
turn =
    pair_of (blank Op.seq (text "turn")) (channel_node (text "get") recv_tool (text "in"))
      (channel_node (text "put") emit_tool (text "out"))

abbrev pub session : Node
session =
    node
      (record (blank Op.loop (text "root")) {
        channels = some (channel (text "in") ∷ channel (text "out") ∷ []);
      })
      absent absent (present turn) absent no_cases absent

-- A session that receives in one branch of a `par`.
abbrev pub racing_session : Node
racing_session =
    node (blank Op.loop (text "root")) absent absent
      (present (
        pair_of (blank Op.par (text "both")) (channel_node (text "get") recv_tool (text "in"))
          (channel_node (text "put") emit_tool (text "out"))))
      absent no_cases absent

-- Two calls in sequence, under a bounded loop.
abbrev pub retrying : Node
retrying =
    node (record (blank Op.iter_up_to (text "again")) { bound = some (pos 3) }) absent absent
      (present (
        pair_of (blank Op.seq (text "steps")) (call_node (text "a") (text "fetch"))
          (call_node (text "b") (text "store"))))
      absent no_cases absent

-- A sub-flow whose contract says Agent.
abbrev pub hidden_agent : Node
hidden_agent = leaf_of (record (blank Op.prim (text "s")) { step = sub_step Shape.agent })
