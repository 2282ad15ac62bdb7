-- ===== src/Staged.antt =====
-- julep/staged.py: the admission of a plan that a reasoner wrote, against the grants of its parent.
pub mod Cost
pub mod Charges
pub mod Spend
pub mod Bind
pub mod Admission
pub mod Admits
pub mod Grants
pub mod Pinned
use julep.Prelude.{
  ℕ, zero, suc, ◌+◌, ◌*◌, Text, text_eq, has_text, is_some, Bool, true, false, not, ◌&&◌, ℤ, pos,
  negsuc, ◌+ℤ◌, ◌*ℤ◌, max_ℤ, ltb_ℤ, or_else, get, Option, none, some, List, [], ◌∷◌, ◌++◌, collect,
  if◌then◌else◌, Result, return, raise, plan_rejected, ◌>>=◌,
}
use julep.Json.{Json}
use julep.Kinds.{Op, Effect, Idempotency, Shape, feedback, shape_leq}
use julep.Ir.{
  Ann, CallStep, Step, call, think, sub, toolref_key, Info, Node, node, Slot, absent, present,
  CaseSlot, no_cases, switch, Cases, end, case, info, walk,
}
use julep.Contracts.{FrozenTool, ToolManifest}
use julep.Shapes.{closed_shape}
use julep.Validate.Diagnostic.{
  Diagnostic, err, flag, blocking, plan_tool_unbound, plan_tool_ambiguous, plan_too_rich,
  plan_dynamic_fanout, plan_tool_ungranted, plan_sub_too_rich, plan_budget,
}
use julep.Validate.Gate.{Target, by_root, validate}

-- `plan.ann.cost if (plan.ann and plan.ann.cost is not None) else None`
abbrev pub own_cost : Option Ann → Option ℤ
own_cost none = none
own_cost (some a) = a.cost

-- `own or 0.0`
abbrev pub charge : Option ℤ → ℤ
charge own = or_else own (pos 0)

abbrev pub sum_of_two : (l r : List ℤ) → ℤ
sum_of_two (x ∷ _) (y ∷ _) = x +ℤ y
sum_of_two _ _ = pos 0

abbrev pub max_of_two : (l r : List ℤ) → ℤ
max_of_two (x ∷ _) (y ∷ _) = max_ℤ x y
max_of_two _ _ = pos 0

unfoldable pub max_of : List ℤ → ℤ
max_of [] = pos 0
max_of (x ∷ []) = x
max_of (x ∷ y ∷ xs) = max_ℤ x (max_of (y ∷ xs))

-- `plan.bound or 1`
abbrev pub or_one : Option ℤ → ℤ
or_one none = pos 1
or_one (some (pos zero)) = pos 1
or_one (some b) = b

-- `estimate_cost(plan.body) if plan.body else 0.0`
abbrev pub body_cost : List ℤ → ℤ
body_cost [] = pos 0
body_cost (x ∷ _) = x

-- `own or d`
abbrev pub or_default : Option ℤ → ℤ → ℤ
or_default none d = d
or_default (some (pos zero)) d = d
or_default (some c) d = c

-- `unit` is the cost 1.0 in the smallest unit.
module _ (unit : ℕ) where
  abbrev pub default_of : Option Step → ℤ
  default_of (some (think s)) = pos (2 * unit)
  default_of (some (sub s)) = pos (5 * unit)
  default_of _ = pos unit

  unfoldable pub estimate_at :
      Op
      → (own : Option ℤ) (default : ℤ) (bound : Option ℤ) (l r b : List ℤ) → Option (List ℤ)
      → (d : List ℤ) → ℤ
  unfolding max_of
  estimate_at Op.prim own st n l r b c d = or_else own st
  estimate_at Op.ident own st n l r b c d = charge own
  estimate_at Op.arr own st n l r b c d = charge own
  estimate_at Op.seq own st n l r b c d = charge own +ℤ sum_of_two l r
  estimate_at Op.par own st n l r b c d = charge own +ℤ sum_of_two l r
  estimate_at Op.alt own st n l r b (some cs) d = charge own +ℤ max_of (cs ++ d)
  estimate_at Op.alt own st n l r b none d = charge own +ℤ max_of_two l r
  estimate_at Op.iter_up_to own st n l r b c d = charge own +ℤ (or_one n *ℤ body_cost b)
  estimate_at _ own st n l r b c d = or_default own (pos (5 * unit))

  unfoldable mutual
    unfolding estimate_at

    pub estimate_cost : Node → ℤ
    estimate_cost (node i l r b p c d) =
        estimate_at i.op (own_cost i.ann) (default_of i.step) i.bound (estimate_slot l)
          (estimate_slot r) (estimate_slot b) (estimate_case_slot c) (estimate_slot d)

    pub estimate_slot : Slot → List ℤ
    estimate_slot absent = []
    estimate_slot (present n) = estimate_cost n ∷ []

    pub estimate_case_slot : CaseSlot → Option (List ℤ)
    estimate_case_slot no_cases = none
    estimate_case_slot (switch cs) = some (estimate_cases cs)

    pub estimate_cases : Cases → List ℤ
    estimate_cases end = []
    estimate_cases (case k n cs) = estimate_cost n ∷ estimate_cases cs
