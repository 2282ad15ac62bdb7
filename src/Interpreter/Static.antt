-- ===== src/Interpreter/Static.antt =====
-- Flows whose evaluation is bounded by their own size: no LOOP, no plan that is compiled at run time,
-- and no `par` of a kind that is unknown, which `_all_branches` and `_eval_par` take for its own branch.
pub mod Branches
use julep.Prelude.{
  some_injective, ℕ, suc, ◌+◌, ◌≤◌, ◌≡◌, refl, sym, ap, ◌∙◌, Bool, true, false, Bool-cases, inl,
  inr, Option, none, some, List, [], ◌∷◌, ◌++◌, All, All-append, All-append_left, All-append_right,
  In, here, there, In-All, In-append_left, In-append_right, collect, All-collect, length,
  length-append, if◌then◌else◌, arith, text_eq, Result, return, raise, return_injective,
  >>=-eq-return,
}
use mathlib.Core.Path.{subst}
use julep.Kinds.{Op}
use julep.Ir.{
  Merge, MergeKind, all, race, hedge, quorum, unknown, race_like, same_kind, Info, Node, node, Slot,
  absent, present, CaseSlot, no_cases, switch, Cases, end, case, info, slot_nodes, case_nodes,
  case_slot_nodes, children, walk,
}
use julep.Ir.Walk.{walk_shorter, walk-children}
use julep.Shapes.Executed.{is_present}
use julep.Derived.{
  in_group, merges_as, flatten_from, is_par, both, flatten, flatten_slot, flatten_race_group,
}
use julep.Interpreter.Env.{Reply, ok, raised}
use julep.Interpreter.Parts
use julep.Interpreter.Parts.{merges_all, all_branches, branches_below, get_case, kind_of}

abbrev pub known : Option Merge → Bool
known none = true
known (some m) = elim m.kind [ unknown k ↦ false | _ ↦ true ]

abbrev pub static_at : Op → Slot → Option Merge → Bool
static_at Op.loop p m = false
static_at Op.eval_plan p m = is_present p
static_at Op.par p m = known m
static_at _ p m = true

abbrev pub is_static : Node → Bool
is_static (node i l r b p c d) = static_at i.op p i.merge

-- All that `n` holds is static, and it has at most `f` nodes.
pub record Small (f : ℕ) (n : Node) : Type 0 where
  pub static : All (λ k. is_static k ≡ true) (walk n)
  pub sized : length (walk n) ≤ f

pub le_suc : (f : ℕ) → f ≤ suc f
le_suc f = omega arith

pub Small-le : {f g : ℕ} {n : Node} → f ≤ g → Small f n → Small g n
Small-le h s = record { static = s.static; sized = omega (arith, s.sized) }

-- A child is smaller by one.
pub child-Small : {f : ℕ} (n k : Node) → Small (suc f) n → In k (children n) → Small f k
child-Small n k s m =
    let rest : All (λ x. is_static x ≡ true) (collect walk (children n)) =
      (subst (All (λ x. is_static x ≡ true)) (walk-children n) s.static).1 in
    record {
      static =
          In-All (λ x. All (λ y. is_static y ≡ true) (walk x))
            (All-collect (λ y. is_static y ≡ true) walk (children n) rest) m;
      sized = omega (arith, walk_shorter n k m, s.sized);
    }

pub root_static : {f : ℕ} {n : Node} → Small f n → is_static n ≡ true
root_static {f} {n} s = (subst (All (λ x. is_static x ≡ true)) (walk-children n) s.static).0

In-slot : (s : Slot) (x : Node) → s ≡ present x → In x (slot_nodes s)
In-slot s x e = rw e here

module _ (i : Info) (l r b p : Slot) (c : CaseSlot) (d : Slot) (x : Node) where
  abbrev this : Node
  this = node i l r b p c d

  pub left-In : l ≡ present x → In x (children this)
  unfolding children
  left-In e = In-append_left (slot_nodes l) _ (In-slot l x e)

  pub right-In : r ≡ present x → In x (children this)
  unfolding children
  right-In e = In-append_right (slot_nodes l) _ (In-append_left (slot_nodes r) _ (In-slot r x e))

  pub body-In : b ≡ present x → In x (children this)
  unfolding children
  body-In e =
      In-append_right (slot_nodes l) _
        (In-append_right (slot_nodes r) _ (In-append_left (slot_nodes b) _ (In-slot b x e)))

  pub plan-In : p ≡ present x → In x (children this)
  unfolding children
  plan-In e = In-append_right (slot_nodes l) _ (
      In-append_right (slot_nodes r) _
        (In-append_right (slot_nodes b) _ (In-append_left (slot_nodes p) _ (In-slot p x e))))

  pub cases-In : In x (case_slot_nodes c) → In x (children this)
  unfolding children
  cases-In m = In-append_right (slot_nodes l) _ (
      In-append_right (slot_nodes r) _ (
        In-append_right (slot_nodes b) _
          (In-append_right (slot_nodes p) _ (In-append_left (case_slot_nodes c) _ m))))

  pub default-In : d ≡ present x → In x (children this)
  unfolding children
  default-In e = In-append_right (slot_nodes l) _ (
      In-append_right (slot_nodes r) _ (
        In-append_right (slot_nodes b) _ (
          In-append_right (slot_nodes p) _
            (In-append_right (case_slot_nodes c) _ (In-slot d x e)))))

pub get_case-In :
    (k : List ℕ) (cs : Cases) (x : Node) → get_case k cs ≡ some x → In x (case_nodes cs)
unfolding get_case
get_case-In k end x e = cc
get_case-In k (case j n cs) x e = elim (Bool-cases (text_eq j k)) [
  | inl h ↦ subst (λ z. In z (n ∷ case_nodes cs)) (some_injective (rw h at e)) here
  | inr h ↦ there (get_case-In k cs x (rw h at e))
]
