-- ===== src/Samples/Sessions.antt =====
-- The session rules on small flows.
use julep.Prelude.{
  ◌≡◌, refl, Text, text, true, Bool, false, Option, none, List, [], ◌∷◌, return, here, ◌↔◌, text_eq,
  ◌+ℤ◌,
}
use julep.Json.{Json}
use julep.Ir.{Node, walk, recv_tool, emit_tool}
use julep.Validate.Diagnostic.{
  is_recv, is_emit, blocking, session_recv_in_parallel, session_emit_in_parallel, err,
}
use julep.Validate.Fence.{check_session_concurrency_fence}
use julep.Validate.Fence.Sound.{Below, self, down, Concurrent, IsSequential, fence_exact}
use julep.Validate.Gate.{by_root, validate}
use julep.Validate.Gate.Accepts.{accepted_turns, validate-Distinct}
use julep.Validate.Turns.{check_session_loop_productivity}
use julep.Validate.Turns.Trace.{Event, receive, send, Trace, receiving, sending, sequence}
use julep.Validate.Turns.Trace.Describes.{Describes}
use julep.Validate.Turns.Trace.Sound.{all_sends}
use julep.Transforms.{ids, collect_duplicate_ids}
use julep.Transforms.Duplicates.{Distinct, duplicates_exact}
use julep.Validate.Structure.{check_structure}
use julep.Validate.Args.{check_ann_retry_fields}
use julep.Validate.Calls.{check_call_and_ctx, check_degraded}
use julep.Validate.Session.{
  check_session_loop_placement, check_session_loop_fields, check_session_channel_declared,
  check_session_target,
}
use julep.Samples.Flows.{session, turn, racing_session, channel_node}

abbrev no_reserved : Json → List Text
no_reserved schema = []

abbrev compatible : Option Json → Option Json → Bool
compatible out inp = false

program : Unit {0}
unfolding validate collect_duplicate_ids check_session_concurrency_fence
    check_session_loop_productivity walk is_recv is_emit check_structure check_ann_retry_fields
    text_eq ◌+ℤ◌ check_session_loop_placement check_session_loop_fields
    check_session_channel_declared check_session_target check_call_and_ctx check_degraded
program = tt

accepted : validate [] no_reserved compatible session none by_root ≡ return []
unfolding program
accepted = refl

nothing_blocks : blocking [] ≡ []
unfolding blocking
nothing_blocks = refl

fenced :
    check_session_concurrency_fence racing_session
    ≡ err session_recv_in_parallel (text "get") ∷ err session_emit_in_parallel (text "put") ∷ []
unfolding program
fenced = refl

turn-Trace : Trace turn (receive ∷ send ∷ [])
unfolding program
turn-Trace =
    sequence turn (channel_node (text "get") recv_tool (text "in"))
      (channel_node (text "put") emit_tool (text "out")) (receive ∷ []) (send ∷ []) refl refl refl
      (receiving _ refl) (sending _ refl refl)

turn-Below : Below session turn
turn-Below = down session turn turn here (self turn)

accepted_turns_example :
    (rest : List Event) × (receive ∷ send ∷ [] ≡ receive ∷ rest) × (all_sends rest ≡ true)
accepted_turns_example =
    accepted_turns [] no_reserved compatible session session turn none by_root []
      (receive ∷ send ∷ []) accepted nothing_blocks (self session) refl refl turn-Trace

fence_exact_example :
    (check_session_concurrency_fence racing_session ≡ [])
    ↔ ((m : Node) → Concurrent racing_session m → IsSequential m)
fence_exact_example = fence_exact racing_session

validate-Distinct_example : Distinct (ids (walk session))
validate-Distinct_example =
    validate-Distinct [] no_reserved compatible session none by_root [] accepted nothing_blocks

duplicates_exact_example : (collect_duplicate_ids session ≡ []) ↔ Distinct (ids (walk session))
duplicates_exact_example = duplicates_exact session
