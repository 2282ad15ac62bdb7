-- ===== src/Validate/Session.antt =====
-- The session rules of julep/validate.py on where a LOOP, a recv and an emit may stand.
use julep.Prelude.{
  Text, Bool, true, false, not, ◌&&◌, ◌||◌, any, is_some, has_text, Option, none, some, List, [],
  ◌∷◌, ◌++◌, map, if◌then◌else◌, collect,
}
use julep.Kinds.{Op}
use julep.Ir.{
  Info, ChannelRef, Node, node, Slot, absent, present, CaseSlot, no_cases, switch, Cases, end, case,
  info, body, walk,
}
use julep.Validate.Diagnostic.{
  Diagnostic, err, warn, flag, is_recv, is_emit, is_loop, session_loop_in_eval_plan,
  session_loop_nested, session_loop_bad_fields, channel_undeclared, session_channel_undeclared,
  session_loop_in_flow, session_recv_in_flow, session_emit_in_flow, session_recv_outside_loop,
  session_emit_outside_loop,
}

abbrev pub has_slot : Slot → Bool
has_slot absent = false
has_slot (present n) = true

abbrev pub has_cases : CaseSlot → Bool
has_cases no_cases = false
has_cases (switch cs) = true

-- What the walk of a node adds, by operator: `all` are its children, with the flags unchanged.
abbrev placement_below : Op → (loop_body plan app_children all : List Diagnostic) → List Diagnostic
placement_below Op.loop b p a all = b
placement_below Op.eval_plan b p a all = p
placement_below Op.app b p a all = a
placement_below _ b p a all = all

-- `rec` of `_check_session_loop_placement`.
unfoldable mutual
  pub placement : (inside_plan inside_loop : Bool) → Node → List Diagnostic
  placement ip il (node i l r b p c d) =
      let loop_body = placement_slot ip true b in
      let plan = placement_slot true il p in
      let app_children =
        placement_slot true il l
        ++ (placement_slot true il r
            ++ (placement_slot true il b
                ++ (placement_slot true il p
                    ++ (placement_cases true il c ++ placement_slot true il d)))) in
      let all =
        placement_slot ip il l
        ++ (placement_slot ip il r
            ++ (placement_slot ip il b
                ++ (placement_slot ip il p
                    ++ (placement_cases ip il c ++ placement_slot ip il d)))) in
      flag (is_loop i.op && ip) (err session_loop_in_eval_plan i.id)
      ++ (flag (is_loop i.op && il) (err session_loop_nested i.id)
          ++ placement_below i.op loop_body plan app_children all)

  pub placement_slot : (inside_plan inside_loop : Bool) → Slot → List Diagnostic
  placement_slot ip il absent = []
  placement_slot ip il (present n) = placement ip il n

  pub placement_cases : (inside_plan inside_loop : Bool) → CaseSlot → List Diagnostic
  placement_cases ip il no_cases = []
  placement_cases ip il (switch cs) = placement_entries ip il cs

  pub placement_entries : (inside_plan inside_loop : Bool) → Cases → List Diagnostic
  placement_entries ip il end = []
  placement_entries ip il (case k n cs) = placement ip il n ++ placement_entries ip il cs

unfoldable pub check_session_loop_placement : Node → List Diagnostic
unfolding placement
check_session_loop_placement flow = placement false false flow

-- A LOOP may carry its body and the session metadata only.
abbrev pub illegal_fields : Node → Bool
illegal_fields (node i l r b p c d) =
    has_slot l
    || (has_slot r
        || (has_slot p
            || (has_cases c
                || (has_slot d
                    || (is_some i.controller
                        || (is_some i.select || (is_some i.pure || is_some i.merge)))))))

abbrev loop_fields : Node → List Diagnostic
loop_fields n =
    flag (is_loop (info n).op && illegal_fields n) (err session_loop_bad_fields (info n).id)

unfoldable pub check_session_loop_fields : Node → List Diagnostic
check_session_loop_fields flow = collect loop_fields (walk flow)

abbrev declares : Option (List ChannelRef) → Option Text → Bool
declares none p = false
declares (some cs) none = false
declares (some cs) (some p) = has_text p (map (λ c. c.name) cs)

abbrev pub channel_op : Option (List ChannelRef) → Node → List Diagnostic
channel_op declared d =
    if (is_recv (info d) || is_emit (info d)) && not (declares declared (info d).prompt)
    then warn channel_undeclared (info d).id ∷ err session_channel_undeclared (info d).id ∷ []
    else []

abbrev walk_body : Slot → List Node
walk_body absent = []
walk_body (present n) = walk n

abbrev loop_channels : Node → List Diagnostic
loop_channels n =
    if is_loop (info n).op then collect (channel_op (info n).channels) (walk_body (body n)) else []

unfoldable pub check_session_channel_declared : Node → List Diagnostic
unfolding has_text
check_session_channel_declared flow = collect loop_channels (walk flow)

-- The rules at one node, by whether the target is a session.
abbrev pub target_here : (is_session has_loop inside_loop : Bool) → Info → List Diagnostic
target_here false has_loop inside i =
    flag (is_loop i.op) (err session_loop_in_flow i.id)
    ++ (flag (is_recv i) (err session_recv_in_flow i.id)
        ++ (flag (is_recv i && (has_loop && not inside)) (err session_recv_outside_loop i.id)
            ++ (flag (is_emit i) (err session_emit_in_flow i.id)
                ++ flag (is_emit i && (has_loop && not inside))
                    (err session_emit_outside_loop i.id))))
target_here true has_loop inside i =
    flag (not inside && is_recv i) (err session_recv_outside_loop i.id)
    ++ flag (not inside && is_emit i) (err session_emit_outside_loop i.id)

unfoldable mutual
  pub target : (is_session has_loop inside_loop : Bool) → Node → List Diagnostic
  target s h inside (node i l r b p c d) =
      let loop_body = target_slot s h true b in
      let all =
        target_slot s h inside l
        ++ (target_slot s h inside r
            ++ (target_slot s h inside b
                ++ (target_slot s h inside p
                    ++ (target_cases s h inside c ++ target_slot s h inside d)))) in
      target_here s h inside i ++ (if is_loop i.op then loop_body else all)

  pub target_slot : (is_session has_loop inside_loop : Bool) → Slot → List Diagnostic
  target_slot s h inside absent = []
  target_slot s h inside (present n) = target s h inside n

  pub target_cases : (is_session has_loop inside_loop : Bool) → CaseSlot → List Diagnostic
  target_cases s h inside no_cases = []
  target_cases s h inside (switch cs) = target_entries s h inside cs

  pub target_entries : (is_session has_loop inside_loop : Bool) → Cases → List Diagnostic
  target_entries s h inside end = []
  target_entries s h inside (case k n cs) = target s h inside n ++ target_entries s h inside cs

abbrev pub contains_loop : Node → Bool
contains_loop n = any (λ d. is_loop (info d).op) (walk n)

unfoldable pub check_session_target : Node → (is_session : Bool) → List Diagnostic
unfolding target
check_session_target flow is_session =
    if is_session && is_loop (info flow).op
    then target_slot is_session (contains_loop flow) true (body flow)
    else target is_session (contains_loop flow) false flow
