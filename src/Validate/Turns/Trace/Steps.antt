-- ===== src/Validate/Turns/Trace/Steps.antt =====
-- The classification of a node from those of the nodes that it evaluates, operator by operator.
use julep.Prelude.{
  Text, ◌≡◌, Bool, true, false, ℤ, pos, or_else, Option, List, ◌++◌, In, here, there, arith,
  In-append_left, In-append_right, In-append_cases, All, All-collect, In-All,
}
use julep.Kinds.{Op}
use julep.Ir.{
  Node, node, Slot, absent, present, CaseSlot, no_cases, switch, Cases, end, case, info, left,
  right, body, plan, slot_nodes, case_nodes, walk, children,
}
use julep.Ir.Walk.{walk-children}
use julep.Shapes.Executed.{inner, inner_at}
use julep.Shapes.Executed
use julep.Validate.Diagnostic.{is_recv, is_emit, is_prim, not-prim-no-channel}
use julep.Validate.Fence.Sound.{below, All-below}
use julep.Validate.Turns.Trace.{is_leaf}
use julep.Validate.Turns.Trace.Count.{HasBound}
use julep.Validate.Turns.{
  Turns, one_recv, one_emit, quiet, in_sequence, repeated, alternatives, one_of, classify_op,
  classify, classify_slot, classify_case_slot, classify_cases,
}

pub classify-recv : (n : Node) → is_recv (info n) ≡ true → classify n ≡ one_recv
unfolding classify
classify-recv (node i l r b p c d) h = rw h

pub classify-emit :
    (n : Node) → is_recv (info n) ≡ false → is_emit (info n) ≡ true → classify n ≡ one_emit
unfolding classify
classify-emit (node i l r b p c d) h k = rw (h, k)

leaf_op :
    (op : Op) (id : Text) (bound : Option ℤ) (e : Bool) (l r b p d : List Turns)
    (c : Option (List Turns))
    → is_leaf op ≡ true
    → classify_op op id bound e l r b p c d ≡ quiet
unfolding classify_op
leaf_op op id bound e l r b p d c h = ground arith

pub classify-leaf :
    (n : Node)
    → is_recv (info n) ≡ false
    → is_emit (info n) ≡ false
    → is_leaf (info n).op ≡ true
    → classify n ≡ quiet
unfolding classify
classify-leaf (node i l r b p c d) h k o = rw (h, k) (leaf_op i.op _ _ _ _ _ _ _ _ _ o)

pub classify-seq :
    (n x y : Node)
    → (info n).op ≡ Op.seq
    → left n ≡ present x
    → right n ≡ present y
    → classify n ≡ in_sequence (classify x) (classify y)
unfolding classify
classify-seq (node i l r b p c d) x y o e f =
    let (h, k) = not-prim-no-channel i (rw o) in rw (h, k, o, e, f)

pub classify-iter :
    (n x : Node)
    → (info n).op ≡ Op.iter_up_to
    → body n ≡ present x
    → classify n ≡ repeated (or_else (info n).bound (pos 0)) (classify x)
unfolding classify
classify-iter (node i l r b p c d) x o e =
    let (h, k) = not-prim-no-channel i (rw o) in rw (h, k, o, e)

pub classify-plan :
    (n x : Node) → (info n).op ≡ Op.eval_plan → plan n ≡ present x → classify n ≡ classify x
unfolding classify
classify-plan (node i l r b p c d) x o e =
    let (h, k) = not-prim-no-channel i (rw o) in rw (h, k, o, e)

In-slot : {x : Node} (s : Slot) → In x (slot_nodes s) → In (classify x) (classify_slot s)
unfolding classify
In-slot absent m = elim m [ ]
In-slot (present n) here = here
In-slot (present n) (there m) = elim m [ ]

In-cases : {x : Node} (cs : Cases) → In x (case_nodes cs) → In (classify x) (classify_cases cs)
unfolding classify
In-cases end m = elim m [ ]
In-cases (case k n cs) here = here
In-cases (case k n cs) (there m) = there (In-cases cs m)

In-alternatives :
    (l r d : Slot) (c : CaseSlot) (x : Node)
    → In x (Executed.alternatives c (slot_nodes l ++ slot_nodes r) (slot_nodes d))
    → In
        (classify x)
        (alternatives (classify_case_slot c) (classify_slot l ++ classify_slot r) (classify_slot d))
unfolding classify
In-alternatives l r d no_cases x m =
    In-append_cases (slot_nodes l) (slot_nodes r) (λ k. In-append_left _ _ (In-slot l k))
      (λ k. In-append_right (classify_slot l) _ (In-slot r k)) m
In-alternatives l r d (switch cs) x m =
    In-append_cases (case_nodes cs) (slot_nodes d) (λ k. In-append_left _ _ (In-cases cs k))
      (λ k. In-append_right (classify_cases cs) _ (In-slot d k)) m

-- An `alt` is classified by some list of branches, the chosen one among them.
pub classify-alt :
    (n x : Node)
    → (info n).op ≡ Op.alt
    → In x (inner n)
    → (cs : List Turns) × In (classify x) cs × (classify n ≡ one_of cs)
unfolding classify
classify-alt (node i l r b p c d) x o m =
    let (h, k) = not-prim-no-channel i (rw o) in
    (_, In-alternatives l r d c x (rw o at m), rw (h, k, o))

abbrev is_fan_out : Op → Bool
is_fan_out Op.par = true
is_fan_out Op.each = true
is_fan_out _ = false

fan_out-min :
    (op : Op) (id : Text) (bound : Option ℤ) (e : Bool) (l r b p d : List Turns)
    (c : Option (List Turns))
    → is_fan_out op ≡ true
    → (classify_op op id bound e l r b p c d).min_recv ≡ 0
unfolding classify_op
fan_out-min op id bound e l r b p d c h = ground arith

fan_out-not_prim : (op : Op) → is_fan_out op ≡ true → is_prim op ≡ false
fan_out-not_prim op h = ground arith

-- A concurrent node promises no receive.
pub classify-fan_out : (n : Node) → is_fan_out (info n).op ≡ true → (classify n).min_recv ≡ 0
unfolding classify
classify-fan_out (node i l r b p c d) o =
    let (h, k) = not-prim-no-channel i (fan_out-not_prim i.op o) in
    rw (h, k) (fan_out-min i.op _ _ _ _ _ _ _ _ _ o)

-- The bounds in a flow are those in each node directly below.
pub HasBound-below : (n k : Node) → In k (below n) → All HasBound (walk n) → All HasBound (walk k)
HasBound-below n k m h =
    In-All (λ x. All HasBound (walk x))
      (All-below (λ x. All HasBound (walk x)) n
        (All-collect HasBound walk (children n) (rw walk-children at h).1))
      m
