-- ===== src/Validate/Turns/Trace/Count.antt =====
-- The sign of the largest number of receives that `classify` of julep/validate.py computes.
use julep.Prelude.{
  Bool, ℤ, pos, ◌≤ℤ◌, mul_nonneg, +ℤ_parts, or_else, Option, none, some, List, [], ◌∷◌, ◌++◌, All,
  All-append, All-append_left, All-append_right, inl, inr, Bool-cases, arith,
}
use julep.Kinds.{Op}
use julep.Ir.{
  Info, Node, node, Slot, absent, present, CaseSlot, no_cases, switch, Cases, end, case, info, walk,
  walk_slot, walk_case_slot, walk_cases,
}
use julep.Validate.Diagnostic.{is_recv, is_emit}
use julep.Validate.Turns.{
  Turns, or_quiet, alternatives, cases_or_none, one_of, largest, classify_op, classify_at, classify,
  classify_slot, classify_case_slot, classify_cases,
}

abbrev pub BoundAt : Op → Option ℤ → Type 0
BoundAt Op.iter_up_to b = pos 0 ≤ℤ or_else b (pos 0)
BoundAt _ b = Unit

-- The bound of an `iter_up_to` is not negative.
abbrev pub HasBound : Node → Type 0
HasBound n = BoundAt (info n).op (info n).bound

abbrev pub NonNeg : Turns → Type 0
NonNeg t = pos 0 ≤ℤ t.max_recv

or_quiet-NonNeg : (ts : List Turns) → All NonNeg ts → NonNeg (or_quiet ts)
or_quiet-NonNeg [] h = omega arith
or_quiet-NonNeg (t ∷ ts) h = h.0

one_of-NonNeg : (ts : List Turns) → All NonNeg ts → NonNeg (one_of ts)
unfolding one_of
one_of-NonNeg [] h = omega arith
one_of-NonNeg (t ∷ []) h = h.0
one_of-NonNeg (t ∷ u ∷ ts) h = ground (arith, one_of-NonNeg (u ∷ ts) h.1)

pub largest-NonNeg : (ts : List Turns) → All NonNeg ts → pos 0 ≤ℤ largest ts
unfolding largest
largest-NonNeg [] h = omega arith
largest-NonNeg (t ∷ []) h = h.0
largest-NonNeg (t ∷ u ∷ ts) h = ground (arith, largest-NonNeg (u ∷ ts) h.1)

alternatives-NonNeg :
    (c : Option (List Turns)) (two d : List Turns)
    → All NonNeg two
    → All NonNeg (cases_or_none c)
    → All NonNeg d
    → All NonNeg (alternatives c two d)
alternatives-NonNeg none two d h k m = h
alternatives-NonNeg (some cs) two d h k m = All-append NonNeg cs d k m

module _ (i : Info) (emits : Bool) (l r b p d : List Turns) (c : Option (List Turns))
    (hl : All NonNeg l) (hr : All NonNeg r) (hb : All NonNeg b) (hp : All NonNeg p)
    (hc : All NonNeg (cases_or_none c)) (hd : All NonNeg d) where
  All-NonNeg : All NonNeg (l ++ (r ++ (b ++ (p ++ (cases_or_none c ++ d)))))
  All-NonNeg = All-append NonNeg l _ hl (
      All-append NonNeg r _ hr (
        All-append NonNeg b _ hb
          (All-append NonNeg p _ hp (All-append NonNeg (cases_or_none c) d hc hd))))

  op-NonNeg :
      (op : Op) → BoundAt op i.bound → NonNeg (classify_op op i.id i.bound emits l r b p c d)
  unfolding classify_op
  op-NonNeg Op.seq h = omega (arith, +ℤ_parts, or_quiet-NonNeg l hl, or_quiet-NonNeg r hr)
  op-NonNeg Op.alt h =
      one_of-NonNeg _ (alternatives-NonNeg c (l ++ r) d (All-append NonNeg l r hl hr) hc hd)
  op-NonNeg Op.iter_up_to h = mul_nonneg _ _ (or_quiet-NonNeg b hb) h
  op-NonNeg Op.par h = largest-NonNeg _ All-NonNeg
  op-NonNeg Op.each h = largest-NonNeg _ All-NonNeg
  op-NonNeg Op.eval_plan h = planned-NonNeg p hp
    where
      planned-NonNeg :
          (p : List Turns)
          → All NonNeg p
          → NonNeg (classify_op Op.eval_plan i.id i.bound emits l r b p c d)
      planned-NonNeg [] h = omega arith
      planned-NonNeg (t ∷ ts) h = h.0
  op-NonNeg _ h = omega arith

  at-NonNeg : BoundAt i.op i.bound → NonNeg (classify_at i emits l r b p c d)
  unfolding classify_at
  at-NonNeg h = elim (Bool-cases (is_recv i)) [
    | inl e ↦ rw e (omega arith)
    | inr e ↦ elim (Bool-cases (is_emit i)) [
      | inl f ↦ rw (e, f) (omega arith)
      | inr f ↦ rw (e, f) (op-NonNeg i.op h)
    ]
  ]

mutual
  unfolding classify walk

  pub classify-NonNeg : (n : Node) → All HasBound (walk n) → NonNeg (classify n)
  classify-NonNeg (node i l r b p c d) h =
      let h0 = h.1 in
      let h1 = All-append_right HasBound (walk_slot l) _ h0 in
      let h2 = All-append_right HasBound (walk_slot r) _ h1 in
      let h3 = All-append_right HasBound (walk_slot b) _ h2 in
      let h4 = All-append_right HasBound (walk_slot p) _ h3 in
      at-NonNeg i _ _ _ _ _ _ _ (slot-NonNeg l (All-append_left HasBound (walk_slot l) _ h0))
        (slot-NonNeg r (All-append_left HasBound (walk_slot r) _ h1))
        (slot-NonNeg b (All-append_left HasBound (walk_slot b) _ h2))
        (slot-NonNeg p (All-append_left HasBound (walk_slot p) _ h3))
        (case_slot-NonNeg c (All-append_left HasBound (walk_case_slot c) _ h4))
        (slot-NonNeg d (All-append_right HasBound (walk_case_slot c) _ h4)) h.0

  slot-NonNeg : (s : Slot) → All HasBound (walk_slot s) → All NonNeg (classify_slot s)
  slot-NonNeg absent h = tt
  slot-NonNeg (present n) h = (classify-NonNeg n h, tt)

  case_slot-NonNeg :
      (c : CaseSlot)
      → All HasBound (walk_case_slot c)
      → All NonNeg (cases_or_none (classify_case_slot c))
  case_slot-NonNeg no_cases h = tt
  case_slot-NonNeg (switch cs) h = cases-NonNeg cs h

  cases-NonNeg : (cs : Cases) → All HasBound (walk_cases cs) → All NonNeg (classify_cases cs)
  cases-NonNeg end h = tt
  cases-NonNeg (case k n cs) h = (
    classify-NonNeg n (All-append_left HasBound (walk n) _ h),
    cases-NonNeg cs (All-append_right HasBound (walk n) _ h),
  )
