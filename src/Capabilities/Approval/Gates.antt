-- ===== src/Capabilities/Approval/Gates.antt =====
-- `always_gates` of julep/capabilities.py: what a completed evaluation of such a flow performs.
use julep.Prelude.{
  ◌≡◌, refl, sym, ◌∙◌, Bool, true, false, ◌||◌, Bool-cases, and-eq_true, ◌⊎◌, inl, inr, List, ◌∷◌,
  any-append, All, All-append, In, In-All, In-append_right, here, collect, All-collect, arith,
}
use mathlib.Core.Path.{subst}
use julep.Kinds.{Op}
use julep.Ir.{
  Info, Node, node, Slot, absent, present, no_cases, switch, Cases, end, case, info, left, right,
  body, plan, slot_nodes, case_nodes, children, walk,
}
use julep.Ir.Walk.{walk-children}
use julep.Shapes.Executed.{inner, All-inner}
use julep.Capabilities.Approval.{
  is_human_gate, gates_at, always_gates, gates_slot, gates_default, gates_case_slot, gates_cases,
}
use julep.Capabilities.Approval.Runs.{
  Runs, leaf, silent, left_out, is_left_out, sequence, choice, rounds, staged, branches, items,
  is_silent,
}
use julep.Capabilities.Approval.Guarded.{gate, has_gate, has_gate_interleave}

-- A human gate is a leaf.
abbrev pub GateIsLeaf : Node → Type 0
GateIsLeaf n = is_human_gate (info n).step ≡ true → (info n).op ≡ Op.prim

abbrev pub Followed : Node → Type 0
Followed n = GateIsLeaf n × (is_left_out (info n).op (info n).merge (plan n) ≡ false)

-- All human gates are leaves, and there is no session, race or plan that is compiled at run time.
abbrev pub IsCovered : Node → Type 0
IsCovered n = All Followed (walk n)

own-Followed : (n : Node) → IsCovered n → Followed n
own-Followed n h = (subst (λ xs. All Followed xs) (walk-children n) h).0

pub not-left_out :
    (n : Node) → IsCovered n → is_left_out (info n).op (info n).merge (plan n) ≡ true → ⊥
not-left_out n h e = clash (sym e ∙ (own-Followed n h).1)
  where
    clash : true ≡ false → ⊥
    clash h = cc

pub IsCovered-children : (n : Node) → IsCovered n → All IsCovered (children n)
IsCovered-children n h =
    let all : All Followed (n ∷ collect walk (children n)) =
      subst (λ xs. All Followed xs) (walk-children n) h in
    All-collect Followed walk (children n) all.1

pub In-left : (n x : Node) → left n ≡ present x → In x (children n)
unfolding children
In-left (node i l r b p c d) x e = rw e here

pub In-right : (n x : Node) → right n ≡ present x → In x (children n)
unfolding children
In-right (node i l r b p c d) x e = rw e (In-append_right (slot_nodes l) _ here)

pub In-body : (n x : Node) → body n ≡ present x → In x (children n)
unfolding children
In-body (node i l r b p c d) x e =
    rw e (In-append_right (slot_nodes l) _ (In-append_right (slot_nodes r) _ here))

pub In-plan : (n x : Node) → plan n ≡ present x → In x (children n)
unfolding children
In-plan (node i l r b p c d) x e = rw e (
    In-append_right (slot_nodes l) _
      (In-append_right (slot_nodes r) _ (In-append_right (slot_nodes b) _ here)))

abbrev Gating : Node → Type 0
Gating n = always_gates n ≡ true

-- What the operator says.
abbrev below_gates : Node → Bool
unfolding always_gates
below_gates (node i l r b p c d) =
    gates_at i.op (gates_slot l) (gates_slot r) (gates_case_slot c) (gates_default d)

-- A node that is no leaf gates by its operator.
other-gates :
    (n : Node) → IsCovered n → ((info n).op ≡ Op.prim → ⊥) → Gating n → below_gates n ≡ true
unfolding walk always_gates
other-gates (node i l r b p c d) h np g = elim (Bool-cases (is_human_gate i.step)) [
  | inl e ↦ absurd (np (h.0.0 e))
  | inr e ↦ rw e at g
]

seq-gates :
    (n x y : Node)
    → (info n).op ≡ Op.seq
    → left n ≡ present x
    → right n ≡ present y
    → below_gates n ≡ true
    → (always_gates x || always_gates y) ≡ true
unfolding always_gates
seq-gates (node i l r b p c d) x y o el er g = rw (o, el, er) at g

par-gates :
    (n x y : Node)
    → (info n).op ≡ Op.par
    → left n ≡ present x
    → right n ≡ present y
    → below_gates n ≡ true
    → (always_gates x || always_gates y) ≡ true
unfolding always_gates
par-gates (node i l r b p c d) x y o el er g = rw (o, el, er) at g

slot-Gating : (s : Slot) → gates_slot s ≡ true → All Gating (slot_nodes s)
unfolding always_gates
slot-Gating absent h = tt
slot-Gating (present n) h = (h, tt)

default-Gating : (s : Slot) → gates_default s ≡ true → All Gating (slot_nodes s)
unfolding always_gates
default-Gating absent h = tt
default-Gating (present n) h = (h, tt)

cases-Gating : (cs : Cases) → gates_cases cs ≡ true → All Gating (case_nodes cs)
unfolding always_gates
cases-Gating end h = tt
cases-Gating (case k n cs) h =
    let (a, b) = and-eq_true (always_gates n) (gates_cases cs) h in (a, cases-Gating cs b)

-- Every branch of an `alt` that gates does so.
alt-Gating : (n : Node) → (info n).op ≡ Op.alt → below_gates n ≡ true → All Gating (inner n)
unfolding always_gates
alt-Gating (node i l r b p no_cases d) o g =
    let (gl, gr) = and-eq_true (gates_slot l) (gates_slot r) (rw o at g) in
    rw o (All-append Gating (slot_nodes l) (slot_nodes r) (slot-Gating l gl) (slot-Gating r gr))
alt-Gating (node i l r b p (switch cs) d) o g =
    let (gc, gd) = and-eq_true (gates_cases cs) (gates_default d) (rw o at g) in
    rw o
      (All-append Gating (case_nodes cs) (slot_nodes d) (cases-Gating cs gc) (default-Gating d gd))

-- The operators that never gate.
abbrev is_plain : Op → Bool
is_plain Op.seq = false
is_plain Op.par = false
is_plain Op.alt = false
is_plain Op.prim = false
is_plain _ = true

plain-gates : (n : Node) → is_plain (info n).op ≡ true → IsCovered n → Gating n → ⊥
unfolding below_gates
plain-gates (node i l r b p c d) h w g =
    no (other-gates (node i l r b p c d) w (λ e. plain i.op h e) g)
  where
    plain : (op : Op) → is_plain op ≡ true → op ≡ Op.prim → ⊥
    plain op h e = clash (rw e at h)
      where
        clash : false ≡ true → ⊥
        clash h = cc

    no : below_gates (node i l r b p c d) ≡ true → ⊥
    no k = at_op i.op h k
      where
        at_op :
            (op : Op)
            → is_plain op ≡ true
            → gates_at op (gates_slot l) (gates_slot r) (gates_case_slot c) (gates_default d) ≡ true
            → ⊥
        at_op Op.seq h k = cc
        at_op Op.par h k = cc
        at_op Op.alt h k = cc
        at_op _ h k = cc

or-cases : (a b : Bool) → (a || b) ≡ true → (a ≡ true) ⊎ (b ≡ true)
or-cases a b h = ground arith

or_left : (a b : Bool) → a ≡ true → (a || b) ≡ true
or_left a b h = ground arith

or_right : (a b : Bool) → b ≡ true → (a || b) ≡ true
or_right a b h = ground arith

not_prim : {op : Op} (o : Op) → op ≡ o → (o ≡ Op.prim → ⊥) → op ≡ Op.prim → ⊥
not_prim o e h k = h (sym e ∙ k)

either :
    (x y : Node) (s t : List Info)
    → (Gating x → has_gate s ≡ true)
    → (Gating y → has_gate t ≡ true)
    → (always_gates x || always_gates y) ≡ true
    → (has_gate s || has_gate t) ≡ true
either x y s t f g h = elim (or-cases (always_gates x) (always_gates y) h) [
  | inl a ↦ or_left _ _ (f a)
  | inr b ↦ or_right _ _ (g b)
]

leaf-gate :
    (n : Node) → (info n).op ≡ Op.prim → Gating n → (is_human_gate (info n).step || false) ≡ true
unfolding always_gates
leaf-gate (node i l r b p c d) o g = rw o at g

pub silent-plain : (op : Op) → is_silent op ≡ true → is_plain op ≡ true
silent-plain Op.ident h = refl
silent-plain Op.arr h = refl
silent-plain Op.app h = refl
silent-plain _ h = cc

pub child : (n x : Node) → IsCovered n → In x (children n) → IsCovered x
child n x w e = In-All IsCovered (IsCovered-children n w) e

-- A completed evaluation of a flow that always gates performs a human gate.
pub Gating-has_gate :
    {n : Node} {t : List Info} → IsCovered n → Gating n → Runs n t → has_gate t ≡ true
Gating-has_gate w g (leaf n o) = leaf-gate n o g
Gating-has_gate w g (silent n o) = absurd (plain-gates n (silent-plain _ o) w g)
Gating-has_gate w g (left_out n t h) = absurd (not-left_out n w h)
Gating-has_gate w g (sequence n x y s u o el er rx ry) =
    any-append gate s u
    ∙ either x y s u (λ h. Gating-has_gate (child n x w (In-left n x el)) h rx)
        (λ h. Gating-has_gate (child n y w (In-right n y er)) h ry)
        (seq-gates n x y o el er (other-gates n w (not_prim Op.seq o (λ h. cc)) g))
Gating-has_gate w g (choice n k t o e r) =
    Gating-has_gate (In-All IsCovered (All-inner IsCovered n (IsCovered-children n w)) e)
      (In-All Gating (alt-Gating n o (other-gates n w (not_prim Op.alt o (λ h. cc)) g)) e) r
Gating-has_gate w g (rounds n x k t o e r) = absurd (plain-gates n (rw o refl) w g)
Gating-has_gate w g (staged n x t o e r) = absurd (plain-gates n (rw o refl) w g)
Gating-has_gate w g (branches n x y s u t o q el er rx ry i) =
    has_gate_interleave i
    ∙ either x y s u (λ h. Gating-has_gate (child n x w (In-left n x el)) h rx)
        (λ h. Gating-has_gate (child n y w (In-right n y er)) h ry)
        (par-gates n x y o el er (other-gates n w (not_prim Op.par o (λ h. cc)) g))
Gating-has_gate w g (items n x t o e r) = absurd (plain-gates n (rw o refl) w g)
