-- ===== src/Validate/Fence/Errors.antt =====
-- The severity of the diagnostics of the fence of julep/validate.py.
use julep.Prelude.{Text, ◌≡◌, refl, Bool, true, List, [], arith}
use julep.Kinds.{Op}
use julep.Ir.{Node, node, Slot, absent, present, CaseSlot, no_cases, switch, Cases, end, case}
use julep.Validate.Diagnostic.{Code, Diagnostic, err, flag, blocking, blocking-append}
use julep.Validate.Fence.{fence_below, fence, fence_slot, fence_case_slot, fence_cases}

blocking-nil : blocking [] ≡ []
unfolding blocking
blocking-nil = refl

flag_errors : (b : Bool) (c : Code) (id : Text) → blocking (flag b (err c id)) ≡ flag b (err c id)
unfolding blocking
flag_errors b c id = ground arith

below_errors :
    (op : Op) (f : Bool) (x y z : List Diagnostic)
    → blocking (fence_below op f x y z) ≡ fence_below op f (blocking x) (blocking y) (blocking z)
unfolding blocking
below_errors op f x y z = ground arith

mutual
  unfolding fence

  pub fence_errors : (f : Bool) (n : Node) → blocking (fence f n) ≡ fence f n
  fence_errors f (node i l r b p c d) = simp (
    blocking-append,
    below_errors,
    flag_errors,
    slot_errors true l,
    slot_errors true r,
    slot_errors true b,
    slot_errors f l,
    slot_errors f r,
    slot_errors f b,
    slot_errors f p,
    case_slot_errors f c,
    slot_errors f d,
  )

  slot_errors : (f : Bool) (s : Slot) → blocking (fence_slot f s) ≡ fence_slot f s
  slot_errors f absent = blocking-nil
  slot_errors f (present n) = fence_errors f n

  case_slot_errors :
      (f : Bool) (c : CaseSlot) → blocking (fence_case_slot f c) ≡ fence_case_slot f c
  case_slot_errors f no_cases = blocking-nil
  case_slot_errors f (switch cs) = cases_errors f cs

  cases_errors : (f : Bool) (cs : Cases) → blocking (fence_cases f cs) ≡ fence_cases f cs
  cases_errors f end = blocking-nil
  cases_errors f (case k n cs) = simp (blocking-append, fence_errors f n, cases_errors f cs)
