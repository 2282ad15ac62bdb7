-- ===== src/Validate/Turns/Trace/Silent.antt =====
-- Evaluations of flows without channel operations, for julep/validate.py.
use julep.Prelude.{
  ℕ, ◌≡◌, refl, List, [], ◌++◌, In, here, In-append_left, In-append_right, In-append_cases,
}
use julep.Kinds.{Op}
use julep.Ir.{
  Node, node, Slot, present, CaseSlot, no_cases, switch, info, left, right, body, plan, slot_nodes,
  case_slot_nodes,
}
use julep.Shapes.Executed.{inner, alternatives}
use julep.Validate.Fence.Sound.{below, Below, self, down, IsSequential}
use julep.Validate.Turns.Trace.{
  Event, Interleaves, done, from_left, from_right, Trace, receiving, sending, leaf, sequence,
  choice, rounds, staged, branches, items, Rounds, stop, again, Items, no_items, one_more,
}

-- The nodes that an evaluation enters stand directly below.
pub left-below : (n x : Node) → (info n).op ≡ Op.seq → left n ≡ present x → In x (below n)
left-below (node i l r b p c d) x h e = rw (h, e) here

pub right-below : (n x : Node) → (info n).op ≡ Op.seq → right n ≡ present x → In x (below n)
right-below (node i l r b p c d) x h e = rw (h, e) (In-append_right (slot_nodes l) _ here)

pub body-below : (n x : Node) → (info n).op ≡ Op.iter_up_to → body n ≡ present x → In x (below n)
body-below (node i l r b p c d) x h e =
    rw (h, e) (In-append_right (slot_nodes l) _ (In-append_right (slot_nodes r) _ here))

pub plan-below : (n x : Node) → (info n).op ≡ Op.eval_plan → plan n ≡ present x → In x (below n)
plan-below (node i l r b p c d) x h e =
    rw (h, e)
      (In-append_right (slot_nodes l) _
        (In-append_right (slot_nodes r) _ (In-append_right (slot_nodes b) _ here)))

pub branch_left-below : (n x : Node) → (info n).op ≡ Op.par → left n ≡ present x → In x (below n)
branch_left-below (node i l r b p c d) x h e = rw (h, e) here

pub branch_right-below : (n x : Node) → (info n).op ≡ Op.par → right n ≡ present x → In x (below n)
branch_right-below (node i l r b p c d) x h e = rw (h, e) (In-append_right (slot_nodes l) _ here)

pub item-below : (n x : Node) → (info n).op ≡ Op.each → body n ≡ present x → In x (below n)
item-below (node i l r b p c d) x h e = rw (h, e) here

alternatives-below :
    (l r b p d : Slot) (c : CaseSlot) (x : Node)
    → In x (alternatives c (slot_nodes l ++ slot_nodes r) (slot_nodes d))
    → In x (
        slot_nodes l
        ++ (slot_nodes r
            ++ (slot_nodes b ++ (slot_nodes p ++ (case_slot_nodes c ++ slot_nodes d)))))
alternatives-below l r b p d no_cases x m =
    In-append_cases (slot_nodes l) (slot_nodes r) (In-append_left (slot_nodes l) _)
      (λ k. In-append_right (slot_nodes l) _ (In-append_left (slot_nodes r) _ k)) m
alternatives-below l r b p d (switch cs) x m = In-append_right (slot_nodes l) _ (
    In-append_right (slot_nodes r) _
      (In-append_right (slot_nodes b) _ (In-append_right (slot_nodes p) _ m)))

pub choice-below : (n x : Node) → (info n).op ≡ Op.alt → In x (inner n) → In x (below n)
choice-below (node i l r b p c d) x h m = rw h (alternatives-below l r b p d c x (rw h at m))

interleave_nil : {u : List Event} → Interleaves [] [] u → u ≡ []
interleave_nil done = refl

abbrev Sequential : Node → Type 0
Sequential n = (m : Node) → Below n m → IsSequential m

abbrev inside : {n k : Node} → Sequential n → In k (below n) → Sequential k
inside {n} {k} h e = λ m b. h m (down n k m e b)

pub interleave_empty : {s t u : List Event} → s ≡ [] → t ≡ [] → Interleaves s t u → u ≡ []
interleave_empty hs ht done = refl
interleave_empty hs ht (from_left e i) = cc
interleave_empty hs ht (from_right e i) = cc

mutual
  pub Trace-silent : {n : Node} {t : List Event} → Sequential n → Trace n t → t ≡ []
  Trace-silent h (receiving n e) = cc (h n (self n)).0
  Trace-silent h (sending n e f) = cc (h n (self n)).1
  Trace-silent h (leaf n e f g) = refl
  Trace-silent h (sequence n x y s t o l r a b) =
      rw (Trace-silent (inside h (left-below n x o l)) a)
        (Trace-silent (inside h (right-below n y o r)) b)
  Trace-silent h (choice n k t o m a) = Trace-silent (inside h (choice-below n k o m)) a
  Trace-silent h (rounds n x k t o e le a) = Rounds-silent (inside h (body-below n x o e)) a
  Trace-silent h (staged n x t o e a) = Trace-silent (inside h (plan-below n x o e)) a
  Trace-silent h (branches n x y s t u o l r a b i) =
      interleave_empty (Trace-silent (inside h (branch_left-below n x o l)) a)
        (Trace-silent (inside h (branch_right-below n y o r)) b) i
  Trace-silent h (items n x u o e a) = Items-silent (inside h (item-below n x o e)) a

  pub Rounds-silent : {n : Node} {k : ℕ} {t : List Event} → Sequential n → Rounds n k t → t ≡ []
  Rounds-silent h (stop x) = refl
  Rounds-silent h (again x k s t a b) = rw (Trace-silent h a) (Rounds-silent h b)

  pub Items-silent : {n : Node} {t : List Event} → Sequential n → Items n t → t ≡ []
  Items-silent h (no_items x) = refl
  Items-silent h (one_more x s t u a b i) = interleave_empty (Trace-silent h a) (Items-silent h b) i
