-- ===== src/Validate/Turns.antt =====
-- `_check_session_loop_productivity` of julep/validate.py: how often a LOOP body can receive, and
-- whether it can emit before it receives.
pub mod Trace
use julep.Prelude.{
  ℕ, zero, suc, ◌+◌, Text, Bool, true, false, ◌&&◌, ◌||◌, ◌==◌, ℤ, pos, ◌+ℤ◌, ◌*ℤ◌, max_ℤ, ltb_ℤ,
  any, Option, none, some, List, [], ◌∷◌, ◌++◌, if◌then◌else◌, collect, or_else, leb,
}
use julep.Kinds.{Op}
use julep.Ir.{
  Info, Node, node, Slot, absent, present, CaseSlot, no_cases, switch, Cases, end, case, walk, info,
  body,
}
use julep.Validate.Diagnostic.{
  Diagnostic, err, flag, session_loop_eval_plan_controller, session_loop_not_recv_guarded,
  session_loop_emit_before_recv, session_loop_multiple_recv, is_recv, is_emit, is_loop,
}

-- What `classify` returns, and the diagnostics that it adds.
pub record Turns : Type 0 where
  pub min_recv : ℕ
  pub max_recv : ℤ
  pub emit_first : Bool
  pub diags : List Diagnostic

abbrev pub quiet : Turns
quiet = record { min_recv = 0; max_recv = pos 0; emit_first = false; diags = [] }

abbrev pub one_recv : Turns
one_recv = record { min_recv = 1; max_recv = pos 1; emit_first = false; diags = [] }

abbrev pub one_emit : Turns
one_emit = record { min_recv = 0; max_recv = pos 0; emit_first = true; diags = [] }

-- `classify(n.left) if n.left is not None else (0, 0, False)`
abbrev pub or_quiet : List Turns → Turns
or_quiet [] = quiet
or_quiet (t ∷ ts) = t

abbrev pub in_sequence : Turns → Turns → Turns
in_sequence s t = record {
  min_recv = s.min_recv + t.min_recv;
  max_recv = s.max_recv +ℤ t.max_recv;
  emit_first = s.emit_first || (s.min_recv == 0 && t.emit_first);
  diags = s.diags ++ t.diags;
}

abbrev pub min_ℕ : ℕ → ℕ → ℕ
min_ℕ a b = if leb a b then a else b

abbrev pub either : Turns → Turns → Turns
either s t = record {
  min_recv = min_ℕ s.min_recv t.min_recv;
  max_recv = max_ℤ s.max_recv t.max_recv;
  emit_first = s.emit_first || t.emit_first;
  diags = s.diags ++ t.diags;
}

-- The branches of an `alt`; no branch at all is quiet.
unfoldable pub one_of : List Turns → Turns
one_of [] = quiet
one_of (t ∷ []) = t
one_of (t ∷ u ∷ ts) = either t (one_of (u ∷ ts))

abbrev pub repeated : ℤ → Turns → Turns
repeated bound t = record t { min_recv = 0; max_recv = t.max_recv *ℤ bound }

-- The largest count among the children, `default=0`.
unfoldable pub largest : List Turns → ℤ
largest [] = pos 0
largest (t ∷ []) = t.max_recv
largest (t ∷ u ∷ ts) = max_ℤ t.max_recv (largest (u ∷ ts))

abbrev pub concurrent : Bool → List Turns → Turns
concurrent emits ts = record {
  min_recv = 0;
  max_recv = largest ts;
  emit_first = emits;
  diags = collect (λ t. t.diags) ts;
}

abbrev pub planned : Text → List Turns → Turns
planned id [] = record quiet { diags = err session_loop_eval_plan_controller id ∷ [] }
planned id (t ∷ ts) = t

abbrev pub alternatives : Option (List Turns) → (two default : List Turns) → List Turns
alternatives none two default = two
alternatives (some cs) two default = cs ++ default

abbrev pub cases_or_none : Option (List Turns) → List Turns
cases_or_none none = []
cases_or_none (some ts) = ts

-- The cases of `classify` by operator. Those that receive and emit nothing themselves are last.
unfoldable pub classify_op :
    Op
    → (id : Text) (bound : Option ℤ) (emits : Bool) (l r b p : List Turns) → Option (List Turns)
    → (d : List Turns) → Turns
unfolding one_of largest
classify_op Op.seq id bound emits l r b p c d = in_sequence (or_quiet l) (or_quiet r)
classify_op Op.alt id bound emits l r b p c d = one_of (alternatives c (l ++ r) d)
classify_op Op.iter_up_to id bound emits l r b p c d = repeated (or_else bound (pos 0)) (or_quiet b)
classify_op Op.par id bound emits l r b p c d =
    concurrent emits (l ++ (r ++ (b ++ (p ++ (cases_or_none c ++ d)))))
classify_op Op.each id bound emits l r b p c d =
    concurrent emits (l ++ (r ++ (b ++ (p ++ (cases_or_none c ++ d)))))
classify_op Op.eval_plan id bound emits l r b p c d = planned id p
classify_op _ id bound emits l r b p c d = quiet

unfoldable pub classify_at :
    Info → (emits : Bool) → (l r b p : List Turns) → Option (List Turns) → (d : List Turns) → Turns
unfolding classify_op
classify_at i emits l r b p c d =
    if is_recv i
    then one_recv
    else if is_emit i
    then one_emit
    else classify_op i.op i.id i.bound emits l r b p c d

unfoldable mutual
  unfolding classify_at

  pub classify : Node → Turns
  classify (node i l r b p c d) =
      classify_at i (any (λ n. is_emit (info n)) (walk (node i l r b p c d))) (classify_slot l)
        (classify_slot r) (classify_slot b) (classify_slot p) (classify_case_slot c)
        (classify_slot d)

  pub classify_slot : Slot → List Turns
  classify_slot absent = []
  classify_slot (present n) = classify n ∷ []

  pub classify_case_slot : CaseSlot → Option (List Turns)
  classify_case_slot no_cases = none
  classify_case_slot (switch cs) = some (classify_cases cs)

  pub classify_cases : Cases → List Turns
  classify_cases end = []
  classify_cases (case k n cs) = classify n ∷ classify_cases cs

-- The three verdicts on the body of one LOOP.
abbrev pub judge : Text → Turns → List Diagnostic
judge id t =
    t.diags
    ++ (flag (t.min_recv == 0) (err session_loop_not_recv_guarded id)
        ++ (flag t.emit_first (err session_loop_emit_before_recv id)
            ++ flag (ltb_ℤ (pos 1) t.max_recv) (err session_loop_multiple_recv id)))

unfoldable pub check_loop : Node → List Diagnostic
unfolding classify
check_loop (node i l r absent p c d) = []
check_loop (node i l r (present n) p c d) = if is_loop i.op then judge i.id (classify n) else []

unfoldable pub check_session_loop_productivity : Node → List Diagnostic
unfolding check_loop
check_session_loop_productivity flow = collect check_loop (walk flow)
