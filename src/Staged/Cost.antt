-- ===== src/Staged/Cost.antt =====
-- The charges of an evaluation of a plan, after `_eval` of julep/execution/interpreter.py, and the sign
-- of `estimate_cost` of julep/staged.py.
use julep.Prelude.{
  ◌*◌, some, none, ℕ, zero, suc, ◌+◌, ◌≤◌, ◌≡◌, Bool, true, false, ℤ, pos, pos_part, ◌≤ℤ◌, ◌+ℤ◌,
  +ℤ_parts, mul_nonneg, or_else, Option, List, [], ◌∷◌, ◌++◌, All, All-append, All-append_left,
  All-append_right, All-of_In, In, arith,
}
use julep.Kinds.{Op}
use julep.Ir.{
  call, think, sub, Step, Info, Node, node, Slot, absent, present, CaseSlot, no_cases, switch,
  Cases, end, case, info, slot_nodes, case_nodes,
}
use julep.Ir.Walk.{Node-induction}
use julep.Shapes.Executed.{
  alternatives, inner_at, inner, Executes, self, inside, HasBranches, All-inner,
}
use julep.Validate.Turns.Trace.Count.{HasBound, BoundAt}
use julep.Staged.{
  own_cost, charge, sum_of_two, max_of_two, max_of, or_one, body_cost, default_of, estimate_at,
  estimate_cost, estimate_slot, estimate_case_slot, estimate_cases,
}

-- A leaf of a plan, and the operators that evaluate both children.
abbrev pub is_leaf : Op → Bool
is_leaf Op.prim = true
is_leaf Op.ident = true
is_leaf Op.arr = true
is_leaf _ = false

abbrev pub is_pair : Op → Bool
is_pair Op.seq = true
is_pair Op.par = true
is_pair _ = false

-- The operators whose work is not in the plan, or is bounded by no literal.
abbrev pub is_open : Op → Bool
is_open Op.each = true
is_open Op.eval_plan = true
is_open Op.app = true
is_open Op.loop = true
is_open _ = false

-- What the node itself charges.
abbrev pub own : Info → ℕ
own i = pos_part (charge (own_cost i.ann))

-- No negative cost, and no negative bound of a loop, is written on the node, and it is none of the open operators.
pub record IsClosed (n : Node) : Type 0 where
  pub costed : pos 0 ≤ℤ charge (own_cost (info n).ann)
  pub bounded : HasBound n
  pub shut : is_open (info n).op ≡ false

-- Every node that is evaluated is closed.
abbrev pub Shut : Node → Type 0
Shut n = (m : Node) → Executes n m → IsClosed m

-- `_projection_cost`: the annotated cost, or what a provider reports for a reasoner, or a default of
-- the interpreter's own. `unit` is the cost 1.0.
abbrev pub unannotated_cost : (unit : ℕ) → Op → Option Step → (reported_cost : Option ℤ) → Option ℤ
unannotated_cost unit Op.prim (some (think s)) reported_cost = reported_cost
unannotated_cost unit Op.prim (some (sub s)) reported_cost = some (pos (5 * unit))
unannotated_cost unit Op.prim (some (call s)) reported_cost = some (pos unit)
unannotated_cost unit _ s reported_cost = none

abbrev pub projection_cost : (unit : ℕ) → Op → Info → (reported_cost : Option ℤ) → Option ℤ
projection_cost unit op i reported_cost = elim (own_cost i.ann) [
  | some c ↦ some c
  | none ↦ unannotated_cost unit op i.step reported_cost
]

module _ (unit : ℕ) where
  abbrev pub leaf_charge : Op → Info → (reported_cost : Option ℤ) → ℕ
  leaf_charge op i reported_cost =
      pos_part (or_else (projection_cost unit op i reported_cost) (pos 0))

  mutual
    -- What an evaluation charges: each node its projected cost, as often as it is evaluated, where
    -- no provider reports more than `most` for a reasoner.
    pub data Spends (most : ℤ) : Node → ℕ → Type 0 where
      leaf :
          (i : Info) (l r b p d : Slot) (c : CaseSlot) (reported_cost : Option ℤ)
          → is_leaf i.op ≡ true
          → or_else reported_cost (pos 0) ≤ℤ most
          → Spends most (node i l r b p c d) (leaf_charge i.op i reported_cost)
      both :
          (i : Info) (x y : Node) (b p d : Slot) (c : CaseSlot) (s t : ℕ)
          → is_pair i.op ≡ true
          → Spends most x s
          → Spends most y t
          → Spends most (node i (present x) (present y) b p c d) (own i + (s + t))
      choice :
          (i : Info) (l r b p d : Slot) (c : CaseSlot) (k : Node) (s : ℕ)
          → i.op ≡ Op.alt
          → HasBranches (node i l r b p c d)
          → In k (inner (node i l r b p c d))
          → Spends most k s
          → Spends most (node i l r b p c d) (own i + s)
      rounds :
          (i : Info) (l r p d : Slot) (c : CaseSlot) (x : Node) (k s : ℕ)
          → i.op ≡ Op.iter_up_to
          → k ≤ pos_part (or_else i.bound (pos 0))
          → Repeats most x k s
          → Spends most (node i l r (present x) p c d) (own i + s)
      -- Any number of items, any plan, any agent.
      unbounded :
          (i : Info) (l r b p d : Slot) (c : CaseSlot) (s : ℕ)
          → is_open i.op ≡ true
          → Spends most (node i l r b p c d) s
      -- One that is stopped on the way, as a branch that loses a race, charges no more than one that
      -- goes on.
      stopped : (n : Node) (s t : ℕ) → Spends most n s → t ≤ s → Spends most n t

    -- `k` evaluations of a body.
    pub data Repeats (most : ℤ) : Node → ℕ → ℕ → Type 0 where
      stop : (x : Node) → Repeats most x zero 0
      again :
          (x : Node) (k s t : ℕ)
          → Spends most x s
          → Repeats most x k t
          → Repeats most x (suc k) (s + t)

  abbrev pub NonNeg : Node → Type 0
  NonNeg n = pos 0 ≤ℤ estimate_cost unit n

  sum-NonNeg : (a b : ℤ) → pos 0 ≤ℤ a → pos 0 ≤ℤ b → pos 0 ≤ℤ a +ℤ b
  sum-NonNeg a b h k = omega (arith, +ℤ_parts a b)

  max_of-NonNeg : (xs : List ℤ) → All (λ x. pos 0 ≤ℤ x) xs → pos 0 ≤ℤ max_of xs
  unfolding max_of
  max_of-NonNeg [] h = omega arith
  max_of-NonNeg (x ∷ []) h = h.0
  max_of-NonNeg (x ∷ y ∷ xs) h = ground (arith, max_of-NonNeg (y ∷ xs) h.1, h.0)

  slot-NonNeg :
      (s : Slot) → All NonNeg (slot_nodes s) → All (λ x. pos 0 ≤ℤ x) (estimate_slot unit s)
  unfolding estimate_cost
  slot-NonNeg absent h = tt
  slot-NonNeg (present n) h = (h.0, tt)

  cases-NonNeg :
      (cs : Cases) → All NonNeg (case_nodes cs) → All (λ x. pos 0 ≤ℤ x) (estimate_cases unit cs)
  unfolding estimate_cost
  cases-NonNeg end h = tt
  cases-NonNeg (case k n cs) h = (h.0, cases-NonNeg cs h.1)

  pair-NonNeg :
      (l r : Slot)
      → All NonNeg (slot_nodes l ++ slot_nodes r)
      → (pos 0 ≤ℤ sum_of_two (estimate_slot unit l) (estimate_slot unit r))
        × (pos 0 ≤ℤ max_of_two (estimate_slot unit l) (estimate_slot unit r))
  unfolding estimate_cost
  pair-NonNeg absent r h = (omega arith, omega arith)
  pair-NonNeg (present x) absent h = (omega arith, omega arith)
  pair-NonNeg (present x) (present y) h = (sum-NonNeg _ _ h.0 h.1.0, ground (arith, h.0, h.1.0))

  alt-NonNeg :
      (own : Option ℤ) (def : ℤ) (n : Option ℤ) (l r b d : Slot) (c : CaseSlot)
      → pos 0 ≤ℤ charge own
      → All NonNeg (alternatives c (slot_nodes l ++ slot_nodes r) (slot_nodes d))
      → pos 0
        ≤ℤ estimate_at unit Op.alt own def n
            (estimate_slot unit l)
            (estimate_slot unit r)
            (estimate_slot unit b)
            (estimate_case_slot unit c)
            (estimate_slot unit d)
  unfolding estimate_cost estimate_at
  alt-NonNeg own def n l r b d no_cases o h = sum-NonNeg _ _ o (pair-NonNeg l r h).1
  alt-NonNeg own def n l r b d (switch cs) o h = sum-NonNeg _ _ o (
      max_of-NonNeg _ (
        All-append _ _ _ (cases-NonNeg cs (All-append_left NonNeg (case_nodes cs) _ h))
          (slot-NonNeg d (All-append_right NonNeg (case_nodes cs) _ h))))

  or_else-NonNeg :
      (own : Option ℤ) (s : Option Step)
      → pos 0 ≤ℤ charge own
      → pos 0 ≤ℤ or_else own (default_of unit s)
  or_else-NonNeg own s h = ground (arith, h)

  or_one-NonNeg : (b : Option ℤ) → pos 0 ≤ℤ or_else b (pos 0) → pos 0 ≤ℤ or_one b
  or_one-NonNeg b h = ground (arith, h)

  body-NonNeg : (b : Slot) → All NonNeg (slot_nodes b) → pos 0 ≤ℤ body_cost (estimate_slot unit b)
  unfolding estimate_cost
  body-NonNeg absent h = omega arith
  body-NonNeg (present x) h = h.0

  at-NonNeg :
      (op : Op) (i : Info) (l r b d : Slot) (c : CaseSlot)
      → pos 0 ≤ℤ charge (own_cost i.ann)
      → BoundAt op i.bound
      → is_open op ≡ false
      → All NonNeg (
          inner_at op
            (slot_nodes l ++ slot_nodes r)
            (slot_nodes b)
            (alternatives c (slot_nodes l ++ slot_nodes r) (slot_nodes d)))
      → pos 0
        ≤ℤ estimate_at unit op
            (own_cost i.ann)
            (default_of unit i.step)
            i.bound
            (estimate_slot unit l)
            (estimate_slot unit r)
            (estimate_slot unit b)
            (estimate_case_slot unit c)
            (estimate_slot unit d)
  unfolding estimate_at
  at-NonNeg Op.prim i l r b d c o n s h = or_else-NonNeg (own_cost i.ann) i.step o
  at-NonNeg Op.ident i l r b d c o n s h = o
  at-NonNeg Op.arr i l r b d c o n s h = o
  at-NonNeg Op.seq i l r b d c o n s h = sum-NonNeg _ _ o (pair-NonNeg l r h).0
  at-NonNeg Op.par i l r b d c o n s h = sum-NonNeg _ _ o (pair-NonNeg l r h).0
  at-NonNeg Op.alt i l r b d c o n s h =
      alt-NonNeg (own_cost i.ann) (default_of unit i.step) i.bound l r b d c o h
  at-NonNeg Op.iter_up_to i l r b d c o n s h =
      sum-NonNeg _ _ o (mul_nonneg _ _ (or_one-NonNeg i.bound n) (body-NonNeg b h))
  at-NonNeg _ i l r b d c o n s h = cc

  node-NonNeg : (k : Node) → Shut k → All NonNeg (inner k) → NonNeg k
  unfolding estimate_cost
  node-NonNeg (node i l r b p c d) s h =
      let q = s _ (self _) in at-NonNeg i.op i l r b d c q.costed q.bounded q.shut h

  pub estimate-NonNeg : (n : Node) → Shut n → NonNeg n
  estimate-NonNeg n =
      Node-induction {P = λ k. Shut k → NonNeg k}
        (λ k h s. node-NonNeg k s (
          All-of_In (λ m. Shut m → NonNeg m) NonNeg _ (λ m e f. f (λ q x. s q (inside k m q e x)))
            (All-inner _ k h)))
        n
