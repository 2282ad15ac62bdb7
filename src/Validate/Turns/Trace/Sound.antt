-- ===== src/Validate/Turns/Trace/Sound.antt =====
-- `classify` of julep/validate.py, and the completed evaluations of a node.
use julep.Prelude.{
  Text, ℕ, ◌≡◌, refl, Bool, true, false, ◌==◌, pos, ◌≤ℤ◌, ltb_ℤ, or_else, List, [], ◌∷◌, All, In,
  arith, ◌<◌,
}
use julep.Kinds.{Op}
use julep.Ir.{Node, info, walk}
use julep.Ir.Walk.{walk-children}
use julep.Validate.Diagnostic.{flag, blocking, blocking_parts, blocking-flag}
use julep.Validate.Turns.{Turns, judge, quiet, classify}
use julep.Validate.Fence.Sound.{
  below, Below, Concurrent, enter, deeper, is_concurrent, IsSequential, Quiet,
}
use julep.Validate.Turns.Trace.{
  Event, receive, send, receives, Trace, receiving, sending, leaf, sequence, choice, rounds, staged,
  branches, items, Rounds, stop, again,
}
use julep.Validate.Turns.Trace.Silent.{
  left-below, right-below, body-below, plan-below, branch_left-below, branch_right-below,
  item-below, choice-below, interleave_empty, Trace-silent, Items-silent,
}
use julep.Validate.Turns.Trace.Steps.{
  classify-recv, classify-emit, classify-leaf, classify-seq, classify-iter, classify-plan,
  classify-alt, classify-fan_out, HasBound-below,
}
use julep.Validate.Turns.Trace.Count.{HasBound, classify-NonNeg}
use julep.Validate.Turns.Trace.Describes.{
  Describes, sequence-Describes, one_of-Describes, empty-Describes, RoundsBound, rounds-again,
  repeated-Describes,
}

iter-HasBound :
    (n : Node) → (info n).op ≡ Op.iter_up_to → HasBound n → pos 0 ≤ℤ or_else (info n).bound (pos 0)
iter-HasBound n o h = rw o at h

own-HasBound : (n : Node) → All HasBound (walk n) → HasBound n
own-HasBound n h = (rw walk-children at h).0

pub inside-Quiet : {n k : Node} → Quiet n → In k (below n) → Quiet k
inside-Quiet {n} {k} h m = λ x c. h x (deeper n k x m c)

-- The branches of a concurrent node perform nothing.
concurrent-Quiet :
    (n k : Node)
    → is_concurrent (info n).op ≡ true
    → Quiet n
    → In k (below n)
    → (m : Node) → Below k m
    → IsSequential m
concurrent-Quiet n k o h m x b = h x (enter n k x o m b)

mutual
  Trace-Describes :
      {n : Node} {t : List Event}
      → Quiet n
      → All HasBound (walk n)
      → Trace n t
      → Describes (classify n) t
  Trace-Describes q h (receiving n e) =
      rw (classify-recv n e) (record { low = omega arith; high = omega arith; order = λ _. tt })
  Trace-Describes q h (sending n e f) =
      rw (classify-emit n e f) (record { low = omega arith; high = omega arith; order = λ x. cc })
  Trace-Describes q h (leaf n e f o) =
      rw (classify-leaf n e f o) (empty-Describes quiet refl (omega arith))
  Trace-Describes q h (sequence n x y s t o l r a b) = rw (classify-seq n x y o l r) (
      sequence-Describes (classify x) (classify y) s t
        (Trace-Describes (inside-Quiet q (left-below n x o l))
          (HasBound-below n x (left-below n x o l) h) a)
        (Trace-Describes (inside-Quiet q (right-below n y o r))
          (HasBound-below n y (right-below n y o r) h) b))
  Trace-Describes q h (choice n k t o m a) =
      let (cs, e, f) = classify-alt n k o m in
      rw f (
        one_of-Describes cs (classify k) t e (
          Trace-Describes (inside-Quiet q (choice-below n k o m))
            (HasBound-below n k (choice-below n k o m) h) a))
  Trace-Describes q h (rounds n x k t o e le a) =
      let m = body-below n x o e in
      rw (classify-iter n x o e) (
        repeated-Describes (classify x) (or_else (info n).bound (pos 0)) k t
          (classify-NonNeg x (HasBound-below n x m h)) (iter-HasBound n o (own-HasBound n h)) le
          (Rounds-Describes (inside-Quiet q m) (HasBound-below n x m h) a))
  Trace-Describes q h (staged n x t o e a) = rw (classify-plan n x o e) (
      Trace-Describes (inside-Quiet q (plan-below n x o e))
        (HasBound-below n x (plan-below n x o e) h) a)
  Trace-Describes q h (branches n x y s t u o l r a b i) =
      rw
        (interleave_empty
          (Trace-silent (concurrent-Quiet n x (rw o) q (branch_left-below n x o l)) a)
          (Trace-silent (concurrent-Quiet n y (rw o) q (branch_right-below n y o r)) b) i)
        (empty-Describes (classify n) (classify-fan_out n (rw o)) (classify-NonNeg n h))
  Trace-Describes q h (items n x u o e a) =
      rw (Items-silent (concurrent-Quiet n x (rw o) q (item-below n x o e)) a)
        (empty-Describes (classify n) (classify-fan_out n (rw o)) (classify-NonNeg n h))

  Rounds-Describes :
      {x : Node} {k : ℕ} {t : List Event}
      → Quiet x
      → All HasBound (walk x)
      → Rounds x k t
      → RoundsBound (classify x) k t
  Rounds-Describes q h (stop x) = (omega arith, λ _. tt)
  Rounds-Describes q h (again x k s t a b) =
      rounds-again (classify x) k s t (Trace-Describes q h a) (Rounds-Describes q h b)

-- No receive.
abbrev pub all_sends : List Event → Bool
all_sends [] = true
all_sends (receive ∷ t) = false
all_sends (send ∷ t) = all_sends t

no_receives : (t : List Event) → receives t ≡ 0 → all_sends t ≡ true
no_receives [] h = refl
no_receives (receive ∷ t) h = absurd (omega arith)
no_receives (send ∷ t) h = no_receives t h

-- What the three verdicts say when none is given.
judged :
    (c : Turns) (id : Text)
    → blocking (judge id c) ≡ []
    → (0 < c.min_recv) × (c.emit_first ≡ false) × (c.max_recv ≤ℤ pos 1)
judged c id h =
    let (_, h1) = blocking_parts c.diags _ h in
    let (a, h2) = blocking_parts (flag (c.min_recv == 0) _) _ h1 in
    let (b, d) = blocking_parts (flag c.emit_first _) _ h2 in
    let e = blocking-flag (c.min_recv == 0) _ refl a in
    let f = blocking-flag (ltb_ℤ (pos 1) c.max_recv) _ refl d in
    (ground arith, blocking-flag c.emit_first _ refl b, ground arith)

one_turn :
    (c : Turns) (id : Text) (t : List Event)
    → blocking (judge id c) ≡ []
    → Describes c t
    → (rest : List Event) × (t ≡ receive ∷ rest) × (all_sends rest ≡ true)
one_turn c id [] h d = let (a, _, _) = judged c id h in absurd (omega (arith, d.low))
one_turn c id (send ∷ t) h d = let (_, b, _) = judged c id h in absurd (d.order b)
one_turn c id (receive ∷ t) h d =
    let (_, _, e) = judged c id h in (t, refl, no_receives t (omega (arith, d.high)))

-- If the verdicts on a LOOP body block nothing and the fence admits it, each completed turn is one
-- receive and then only emits.
pub turn_receives_once :
    (id : Text) (n : Node) (t : List Event)
    → blocking (judge id (classify n)) ≡ []
    → ((m : Node) → Concurrent n m → IsSequential m)
    → All HasBound (walk n)
    → Trace n t
    → (rest : List Event) × (t ≡ receive ∷ rest) × (all_sends rest ≡ true)
turn_receives_once id n t h q b a = one_turn (classify n) id t h (Trace-Describes q b a)
