-- ===== src/Staged/Bind/Same.antt =====
-- Binding the calls of a plan and the parts of julep/staged.py that it does not concern.
use julep.Prelude.{
  ◌≡◌, refl, ap, ℕ, Option, none, some, List, [], ◌∷◌, ◌++◌, map, In, here, there, In-All, All,
  All-map, In-append_left, In-append_right, In-append_cases, In-collect,
}
use julep.Kinds.{Op}
use julep.Ir.{
  Step, call, think, sub, Node, node, Slot, absent, present, CaseSlot, no_cases, switch, Cases, end,
  case, slot_nodes, case_nodes, children, walk,
}
use julep.Ir.Walk.{walk-children}
use julep.Contracts.{ToolManifest}
use julep.Shapes.Executed.{alternatives, inner_at, inner, Executes, self, inside, All-inner}
use julep.Staged.{default_of, estimate_cost, estimate_slot, estimate_case_slot, estimate_cases}
use julep.Staged.Bind.{bind_step, bind, bind_slot, bind_case_slot, bind_cases}

module _ (unit : ℕ) (m : ToolManifest) where
  default_of-bind_step : (s : Option Step) → default_of unit (bind_step m s) ≡ default_of unit s
  unfolding bind_step
  default_of-bind_step none = refl
  default_of-bind_step (some (call s)) = refl
  default_of-bind_step (some (think s)) = refl
  default_of-bind_step (some (sub s)) = refl

  mutual
    unfolding estimate_cost bind

    pub estimate_cost-bind : (n : Node) → estimate_cost unit (bind m n) ≡ estimate_cost unit n
    estimate_cost-bind (node i l r b p c d) =
        rw
          (
            default_of-bind_step i.step,
            slot-bind l,
            slot-bind r,
            slot-bind b,
            case_slot-bind c,
            slot-bind d,
          )
          refl

    slot-bind : (s : Slot) → estimate_slot unit (bind_slot m s) ≡ estimate_slot unit s
    slot-bind absent = refl
    slot-bind (present n) = ap (λ x. x ∷ []) (estimate_cost-bind n)

    case_slot-bind :
        (c : CaseSlot) → estimate_case_slot unit (bind_case_slot m c) ≡ estimate_case_slot unit c
    case_slot-bind no_cases = refl
    case_slot-bind (switch cs) = ap some (cases-bind cs)

    cases-bind : (cs : Cases) → estimate_cases unit (bind_cases m cs) ≡ estimate_cases unit cs
    cases-bind end = refl
    cases-bind (case k n cs) = rw (estimate_cost-bind n, cases-bind cs) refl

module _ (m : ToolManifest) where
  slot_nodes-bind : (s : Slot) → slot_nodes (bind_slot m s) ≡ map (bind m) (slot_nodes s)
  unfolding bind
  slot_nodes-bind absent = refl
  slot_nodes-bind (present n) = refl

  case_nodes-bind : (cs : Cases) → case_nodes (bind_cases m cs) ≡ map (bind m) (case_nodes cs)
  unfolding bind
  case_nodes-bind end = refl
  case_nodes-bind (case k n cs) = ap (λ x. bind m n ∷ x) (case_nodes-bind cs)

  In-map : (k : Node) (ns : List Node) → In k ns → In (bind m k) (map (bind m) ns)
  In-map k [] e = elim e [ ]
  In-map k (n ∷ ns) here = here
  In-map k (n ∷ ns) (there e) = there (In-map k ns e)

  In-slot : (k : Node) (s : Slot) → In k (slot_nodes s) → In (bind m k) (slot_nodes (bind_slot m s))
  In-slot k s e = rw slot_nodes-bind (In-map k (slot_nodes s) e)

  In-two :
      (k : Node) (l r : Slot)
      → In k (slot_nodes l ++ slot_nodes r)
      → In (bind m k) (slot_nodes (bind_slot m l) ++ slot_nodes (bind_slot m r))
  In-two k l r e =
      In-append_cases (slot_nodes l) (slot_nodes r)
        (λ x. In-append_left (slot_nodes (bind_slot m l)) _ (In-slot k l x))
        (λ x. In-append_right (slot_nodes (bind_slot m l)) _ (In-slot k r x)) e

  In-alternatives :
      (k : Node) (c : CaseSlot) (l r d : Slot)
      → In k (alternatives c (slot_nodes l ++ slot_nodes r) (slot_nodes d))
      → In (bind m k) (
          alternatives
            (bind_case_slot m c)
            (slot_nodes (bind_slot m l) ++ slot_nodes (bind_slot m r))
            (slot_nodes (bind_slot m d)))
  unfolding bind
  In-alternatives k no_cases l r d e = In-two k l r e
  In-alternatives k (switch cs) l r d e =
      In-append_cases (case_nodes cs) (slot_nodes d)
        (λ x.
          In-append_left (case_nodes (bind_cases m cs)) _
            (rw case_nodes-bind (In-map k (case_nodes cs) x)))
        (λ x. In-append_right (case_nodes (bind_cases m cs)) _ (In-slot k d x)) e

  In-inner_at :
      (op : Op) (k : Node) (l r b d : Slot) (c : CaseSlot)
      → In k (
          inner_at op
            (slot_nodes l ++ slot_nodes r)
            (slot_nodes b)
            (alternatives c (slot_nodes l ++ slot_nodes r) (slot_nodes d)))
      → In (bind m k) (
          inner_at op
            (slot_nodes (bind_slot m l) ++ slot_nodes (bind_slot m r))
            (slot_nodes (bind_slot m b))
            (alternatives
              (bind_case_slot m c)
              (slot_nodes (bind_slot m l) ++ slot_nodes (bind_slot m r))
              (slot_nodes (bind_slot m d))))
  In-inner_at Op.seq k l r b d c e = In-two k l r e
  In-inner_at Op.par k l r b d c e = In-two k l r e
  In-inner_at Op.alt k l r b d c e = In-alternatives k c l r d e
  In-inner_at Op.each k l r b d c e = In-slot k b e
  In-inner_at Op.iter_up_to k l r b d c e = In-slot k b e
  In-inner_at Op.prim k l r b d c e = elim e [ ]
  In-inner_at Op.ident k l r b d c e = elim e [ ]
  In-inner_at Op.arr k l r b d c e = elim e [ ]
  In-inner_at Op.eval_plan k l r b d c e = elim e [ ]
  In-inner_at Op.app k l r b d c e = elim e [ ]
  In-inner_at Op.loop k l r b d c e = elim e [ ]

  In-inner : (k n : Node) → In k (inner n) → In (bind m k) (inner (bind m n))
  unfolding bind
  In-inner k (node i l r b p c d) e = In-inner_at i.op k l r b d c e

  pub Executes-bind : {n k : Node} → Executes n k → Executes (bind m n) (bind m k)
  Executes-bind (self n) = self (bind m n)
  Executes-bind (inside n j k e rest) = inside _ _ _ (In-inner j n e) (Executes-bind rest)

-- What is evaluated is visited.
pub Executes-walk : {n k : Node} → Executes n k → In k (walk n)
Executes-walk (self n) = rw walk-children here
Executes-walk (inside n j k e rest) =
    rw walk-children (there (In-collect walk (among n j e) (Executes-walk rest)))
  where
    every : (xs : List Node) → All (λ x. In x xs) xs
    every [] = tt
    every (x ∷ xs) =
        (here, All-map (λ y. In y xs) (λ y. In y (x ∷ xs)) (λ y e. there e) xs (every xs))

    among : (n j : Node) → In j (inner n) → In j (children n)
    among n j e =
        In-All (λ x. In x (children n)) (All-inner (λ x. In x (children n)) n (every (children n)))
          e
