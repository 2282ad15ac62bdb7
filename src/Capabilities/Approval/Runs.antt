-- ===== src/Capabilities/Approval/Runs.antt =====
-- The leaves that a completed evaluation performs, in order: the control flow of `_eval` in
-- julep/execution/interpreter.py, for any values. What an agent calls by itself is no leaf of the flow. A
-- session, a race and a plan that is compiled at run time may perform anything here.
use julep.Prelude.{
  ℕ, zero, suc, ◌≡◌, Bool, true, false, Option, none, some, List, [], ◌∷◌, ◌++◌, In,
}
use julep.Kinds.{Op}
use julep.Ir.{Slot, absent, Merge, race_like, Info, Node, present, info, left, right, body, plan}
use julep.Shapes.Executed.{inner}

pub data Interleaves {ℓ} {A : Type ℓ} : List A → List A → List A → Type ℓ where
  done : Interleaves [] [] []
  from_left : (e : A) {s t u : List A} → Interleaves s t u → Interleaves (e ∷ s) t (e ∷ u)
  from_right : (e : A) {s t u : List A} → Interleaves s t u → Interleaves s (e ∷ t) (e ∷ u)

-- An operator that performs no leaf of the flow.
abbrev pub is_silent : Op → Bool
is_silent Op.ident = true
is_silent Op.arr = true
is_silent Op.app = true
is_silent _ = false

abbrev pub merges_race : Option Merge → Bool
merges_race none = false
merges_race (some m) = race_like m.kind

-- A session, a race, or a plan that is compiled at run time: `check_approval_gates` walks no session and
-- sees no such plan, and a race may cancel its gate.
abbrev pub is_left_out : Op → Option Merge → Slot → Bool
is_left_out Op.loop m p = true
is_left_out Op.par m p = merges_race m
is_left_out Op.eval_plan m absent = true
is_left_out _ m p = false

mutual
  pub data Runs : Node → List Info → Type 0 where
    leaf : (n : Node) → (info n).op ≡ Op.prim → Runs n (info n ∷ [])
    silent : (n : Node) → is_silent (info n).op ≡ true → Runs n []
    left_out :
        (n : Node) (t : List Info)
        → is_left_out (info n).op (info n).merge (plan n) ≡ true
        → Runs n t
    sequence :
        (n x y : Node) (s t : List Info)
        → (info n).op ≡ Op.seq
        → left n ≡ present x
        → right n ≡ present y
        → Runs x s
        → Runs y t
        → Runs n (s ++ t)
    choice :
        (n k : Node) (t : List Info) → (info n).op ≡ Op.alt → In k (inner n) → Runs k t → Runs n t
    rounds :
        (n x : Node) (k : ℕ) (t : List Info)
        → (info n).op ≡ Op.iter_up_to
        → body n ≡ present x
        → Rounds x k t
        → Runs n t
    staged :
        (n x : Node) (t : List Info)
        → (info n).op ≡ Op.eval_plan
        → plan n ≡ present x
        → Runs x t
        → Runs n t
    branches :
        (n x y : Node) (s t u : List Info)
        → (info n).op ≡ Op.par
        → merges_race (info n).merge ≡ false
        → left n ≡ present x
        → right n ≡ present y
        → Runs x s
        → Runs y t
        → Interleaves s t u
        → Runs n u
    items :
        (n x : Node) (u : List Info)
        → (info n).op ≡ Op.each
        → body n ≡ present x
        → Items x u
        → Runs n u

  -- `k` rounds of a body, one after the other.
  pub data Rounds : Node → ℕ → List Info → Type 0 where
    stop : (x : Node) → Rounds x zero []
    again :
        (x : Node) (k : ℕ) (s t : List Info) → Runs x s → Rounds x k t → Rounds x (suc k) (s ++ t)

  -- A body for each item of a list, interleaved.
  pub data Items : Node → List Info → Type 0 where
    no_items : (x : Node) → Items x []
    one_more : (x : Node) (s t u : List Info) → Runs x s → Items x t → Interleaves s t u → Items x u
