-- ===== src/Validate/Turns/Trace.antt =====
-- The channel operations that a completed evaluation performs, in order: the control flow of
-- `_eval` in julep/execution/interpreter.py, for any values. An agent and a sub-flow have no channel.
-- A LOOP, which ends only when its session is closed, has no trace here, and neither has what evaluates
-- one: a LOOP in the body of another is rejected.
pub mod Silent
pub mod Count
pub mod Steps
pub mod Describes
pub mod Sound
use julep.Prelude.{
  ℕ, zero, suc, ◌+◌, ◌≤◌, ◌≡◌, Bool, true, false, ℤ, pos, pos_part, Option, some, or_else, List, [],
  ◌∷◌, ◌++◌, In,
}
use julep.Kinds.{Op}
use julep.Ir.{Node, present, info, left, right, body, plan}
use julep.Shapes.Executed.{inner}
use julep.Validate.Diagnostic.{is_recv, is_emit}

pub data Event : Type 0 where
  receive send : Event

abbrev pub receives : List Event → ℕ
receives [] = 0
receives (receive ∷ t) = suc (receives t)
receives (send ∷ t) = receives t

pub data Interleaves : List Event → List Event → List Event → Type 0 where
  done : Interleaves [] [] []
  from_left : (e : Event) {s t u : List Event} → Interleaves s t u → Interleaves (e ∷ s) t (e ∷ u)
  from_right : (e : Event) {s t u : List Event} → Interleaves s t u → Interleaves s (e ∷ t) (e ∷ u)

abbrev pub is_leaf : Op → Bool
is_leaf Op.prim = true
is_leaf Op.ident = true
is_leaf Op.arr = true
is_leaf Op.app = true
is_leaf _ = false

mutual
  pub data Trace : Node → List Event → Type 0 where
    receiving : (n : Node) → is_recv (info n) ≡ true → Trace n (receive ∷ [])
    sending : (n : Node) → is_recv (info n) ≡ false → is_emit (info n) ≡ true → Trace n (send ∷ [])
    leaf :
        (n : Node)
        → is_recv (info n) ≡ false
        → is_emit (info n) ≡ false
        → is_leaf (info n).op ≡ true
        → Trace n []
    sequence :
        (n x y : Node) (s t : List Event)
        → (info n).op ≡ Op.seq
        → left n ≡ present x
        → right n ≡ present y
        → Trace x s
        → Trace y t
        → Trace n (s ++ t)
    choice :
        (n k : Node) (t : List Event)
        → (info n).op ≡ Op.alt
        → In k (inner n)
        → Trace k t
        → Trace n t
    rounds :
        (n x : Node) (k : ℕ) (t : List Event)
        → (info n).op ≡ Op.iter_up_to
        → body n ≡ present x
        → k ≤ pos_part (or_else (info n).bound (pos 0))
        → Rounds x k t
        → Trace n t
    staged :
        (n x : Node) (t : List Event)
        → (info n).op ≡ Op.eval_plan
        → plan n ≡ present x
        → Trace x t
        → Trace n t
    branches :
        (n x y : Node) (s t u : List Event)
        → (info n).op ≡ Op.par
        → left n ≡ present x
        → right n ≡ present y
        → Trace x s
        → Trace y t
        → Interleaves s t u
        → Trace n u
    items :
        (n x : Node) (u : List Event)
        → (info n).op ≡ Op.each
        → body n ≡ present x
        → Items x u
        → Trace n u

  -- `k` rounds of a body, one after the other.
  pub data Rounds : Node → ℕ → List Event → Type 0 where
    stop : (x : Node) → Rounds x zero []
    again :
        (x : Node) (k : ℕ) (s t : List Event) → Trace x s → Rounds x k t → Rounds x (suc k) (s ++ t)

  -- A body for each item of a list, interleaved.
  pub data Items : Node → List Event → Type 0 where
    no_items : (x : Node) → Items x []
    one_more :
        (x : Node) (s t u : List Event) → Trace x s → Items x t → Interleaves s t u → Items x u
