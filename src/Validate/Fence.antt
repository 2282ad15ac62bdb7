-- ===== src/Validate/Fence.antt =====
-- `_check_session_concurrency_fence` of julep/validate.py: no recv, emit or LOOP in a concurrent
-- context.
pub mod Sound
pub mod Errors
use julep.Prelude.{Bool, true, false, ◌&&◌, List, [], ◌∷◌, ◌++◌, if◌then◌else◌}
use julep.Kinds.{Op}
use julep.Ir.{Info, Node, node, Slot, absent, present, CaseSlot, no_cases, switch, Cases, end, case}
use julep.Validate.Diagnostic.{
  Diagnostic, err, flag, session_recv_in_parallel, session_emit_in_parallel,
  session_loop_in_parallel, is_recv, is_emit, is_loop,
}

abbrev pub fence_here : Bool → Info → List Diagnostic
fence_here fenced i =
    flag (fenced && is_recv i) (err session_recv_in_parallel i.id)
    ++ (flag (fenced && is_emit i) (err session_emit_in_parallel i.id)
        ++ flag (fenced && is_loop i.op) (err session_loop_in_parallel i.id))

-- Which of the walks below a node is made: `branches` and `body` are fenced.
abbrev pub fence_below : Op → Bool → (branches body all : List Diagnostic) → List Diagnostic
fence_below Op.par fenced branches body all = branches
fence_below Op.each fenced branches body all = body
fence_below Op.loop true branches body all = []
fence_below _ fenced branches body all = all

unfoldable mutual
  pub fence : Bool → Node → List Diagnostic
  fence fenced (node i l r b p c d) =
      let branches = fence_slot true l ++ fence_slot true r in
      let body = fence_slot true b in
      let all =
        fence_slot fenced l
        ++ (fence_slot fenced r
            ++ (fence_slot fenced b
                ++ (fence_slot fenced p ++ (fence_case_slot fenced c ++ fence_slot fenced d)))) in
      fence_here fenced i ++ fence_below i.op fenced branches body all

  pub fence_slot : Bool → Slot → List Diagnostic
  fence_slot fenced absent = []
  fence_slot fenced (present n) = fence fenced n

  pub fence_case_slot : Bool → CaseSlot → List Diagnostic
  fence_case_slot fenced no_cases = []
  fence_case_slot fenced (switch cs) = fence_cases fenced cs

  pub fence_cases : Bool → Cases → List Diagnostic
  fence_cases fenced end = []
  fence_cases fenced (case k n cs) = fence fenced n ++ fence_cases fenced cs

unfoldable pub check_session_concurrency_fence : Node → List Diagnostic
unfolding fence
check_session_concurrency_fence flow = fence false flow
