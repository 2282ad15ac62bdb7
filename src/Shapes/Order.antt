-- ===== src/Shapes/Order.antt =====
-- The two readings of julep/shapes.py compared.
use julep.Prelude.{
  ◌≡◌, refl, Option, none, some, List, [], ◌∷◌, ◌++◌, All, Result, return, raise, ◌>>=◌, arith,
}
use julep.Kinds.{Op, Shape, dataflow, branching, feedback, shape_join}
use julep.Kinds.Join.{◌⊑◌, shape_join_upper, shape_join_least}
use julep.Ir.{
  Step, call, think, sub, Node, node, Slot, absent, present, CaseSlot, no_cases, switch, Cases, end,
  case,
}
use julep.Shapes.{
  surface, closed, step_shape, shape_at, shape, shape_slot, shape_fan_out, shape_default,
  shape_case_slot, shape_cases, surface_shape, closed_shape,
}

abbrev Pointwise : List Shape → List Shape → Type 0
Pointwise [] [] = Unit
Pointwise (x ∷ xs) (y ∷ ys) = (x ⊑ y) × Pointwise xs ys
Pointwise _ _ = ⊥

-- Both raise the same, or both return and the first is no costlier.
abbrev pub NoCostlier : Result Shape → Result Shape → Type 0
NoCostlier (return a) (return b) = a ⊑ b
NoCostlier (raise e) (raise f) = e ≡ f
NoCostlier _ _ = ⊥

abbrev NoCostlierAll : Result (List Shape) → Result (List Shape) → Type 0
NoCostlierAll (return a) (return b) = Pointwise a b
NoCostlierAll (raise e) (raise f) = e ≡ f
NoCostlierAll _ _ = ⊥

abbrev NoCostlierSwitch : Option (Result (List Shape)) → Option (Result (List Shape)) → Type 0
NoCostlierSwitch none none = Unit
NoCostlierSwitch (some a) (some b) = NoCostlierAll a b
NoCostlierSwitch _ _ = ⊥

below_join :
    (b : Shape) (xs ys : List Shape) → Pointwise xs ys → All (λ y. y ⊑ b) ys → All (λ x. x ⊑ b) xs
below_join b [] [] h k = tt
below_join b [] (y ∷ ys) h k = tt
below_join b (x ∷ xs) [] h k = absurd h
below_join b (x ∷ xs) (y ∷ ys) h k = (omega arith, below_join b xs ys h.1 k.1)

join-mono : (xs ys : List Shape) → Pointwise xs ys → shape_join xs ⊑ shape_join ys
join-mono xs ys h =
    shape_join_least (shape_join ys) xs (below_join (shape_join ys) xs ys h (shape_join_upper ys))

Pointwise-append :
    (xs ys us vs : List Shape) → Pointwise xs ys → Pointwise us vs → Pointwise (xs ++ us) (ys ++ vs)
Pointwise-append [] [] us vs h k = k
Pointwise-append [] (y ∷ ys) us vs h k = absurd h
Pointwise-append (x ∷ xs) [] us vs h k = absurd h
Pointwise-append (x ∷ xs) (y ∷ ys) us vs h k = (h.0, Pointwise-append xs ys us vs h.1 k)

-- Two results under the join of a node that needs both.
both :
    (pre : List Shape) (x x' y y' : Result Shape)
    → Pointwise pre pre
    → NoCostlier x x'
    → NoCostlier y y'
    → NoCostlier
        (do a ← x; b ← y; return (shape_join (pre ++ (a ∷ b ∷ []))))
        (do a ← x'; b ← y'; return (shape_join (pre ++ (a ∷ b ∷ []))))
both pre (return a) (return a') (return b) (return b') p h k =
    join-mono _ _ (Pointwise-append pre pre _ _ p (h, (k, tt)))
both pre (return a) (return a') (raise e) (raise f) p h k = k
both pre (raise e) (raise f) y y' p h k = h
both pre (return a) (raise f) y y' p h k = absurd h
both pre (raise e) (return a') y y' p h k = absurd h
both pre (return a) (return a') (return b) (raise f) p h k = absurd k
both pre (return a) (return a') (raise e) (return b') p h k = absurd k

one :
    (floor : Shape) (x x' : Result Shape)
    → NoCostlier x x'
    → NoCostlier
        (do a ← x; return (shape_join (floor ∷ a ∷ [])))
        (do a ← x'; return (shape_join (floor ∷ a ∷ [])))
one floor (return a) (return a') h = join-mono _ _ (omega arith, (h, tt))
one floor (raise e) (raise f) h = h
one floor (return a) (raise f) h = absurd h
one floor (raise e) (return a') h = absurd h

many :
    (xs xs' ys ys' : Result (List Shape))
    → NoCostlierAll xs xs'
    → NoCostlierAll ys ys'
    → NoCostlier
        (do a ← xs; b ← ys; return (shape_join (branching ∷ (a ++ b))))
        (do a ← xs'; b ← ys'; return (shape_join (branching ∷ (a ++ b))))
many (return a) (return a') (return b) (return b') h k =
    join-mono _ _ (omega arith, Pointwise-append a a' b b' h k)
many (return a) (return a') (raise e) (raise f) h k = k
many (raise e) (raise f) ys ys' h k = h
many (return a) (raise f) ys ys' h k = absurd h
many (raise e) (return a') ys ys' h k = absurd h
many (return a) (return a') (return b) (raise f) h k = absurd k
many (return a) (return a') (raise e) (return b') h k = absurd k

step-le : (s : Option Step) → step_shape surface s ⊑ step_shape closed s
step-le none = omega arith
step-le (some (call s)) = omega arith
step-le (some (think s)) = omega arith
step-le (some (sub s)) = omega arith

at-le :
    (op : Op) (st st' : Shape) (l l' r r' b b' f f' : Result Shape)
    (c c' : Option (Result (List Shape))) (d d' : Result (List Shape))
    → st ⊑ st'
    → NoCostlier l l'
    → NoCostlier r r'
    → NoCostlier b b'
    → NoCostlier f f'
    → NoCostlierSwitch c c'
    → NoCostlierAll d d'
    → NoCostlier (shape_at op st l r b f c d) (shape_at op st' l' r' b' f' c' d')
unfolding shape_at
at-le Op.ident st st' l l' r r' b b' f f' c c' d d' hs hl hr hb hf hc hd = omega arith
at-le Op.arr st st' l l' r r' b b' f f' c c' d d' hs hl hr hb hf hc hd = omega arith
at-le Op.prim st st' l l' r r' b b' f f' c c' d d' hs hl hr hb hf hc hd = hs
at-le Op.seq st st' l l' r r' b b' f f' c c' d d' hs hl hr hb hf hc hd = both [] l l' r r' tt hl hr
at-le Op.par st st' l l' r r' b b' f f' c c' d d' hs hl hr hb hf hc hd =
    both (dataflow ∷ []) l l' r r' (omega arith, tt) hl hr
at-le Op.each st st' l l' r r' b b' f f' c c' d d' hs hl hr hb hf hc hd = hf
at-le Op.alt st st' l l' r r' b b' f f' none none d d' hs hl hr hb hf hc hd =
    both (branching ∷ []) l l' r r' (omega arith, tt) hl hr
at-le Op.alt st st' l l' r r' b b' f f' (some c) (some c') d d' hs hl hr hb hf hc hd =
    many c c' d d' hc hd
at-le Op.alt st st' l l' r r' b b' f f' none (some c') d d' hs hl hr hb hf hc hd = absurd hc
at-le Op.alt st st' l l' r r' b b' f f' (some c) none d d' hs hl hr hb hf hc hd = absurd hc
at-le Op.iter_up_to st st' l l' r r' b b' f f' c c' d d' hs hl hr hb hf hc hd = one feedback b b' hb
at-le Op.eval_plan st st' l l' r r' b b' f f' c c' d d' hs hl hr hb hf hc hd = omega arith
at-le Op.app st st' l l' r r' b b' f f' c c' d d' hs hl hr hb hf hc hd = omega arith
at-le Op.loop st st' l l' r r' b b' f f' c c' d d' hs hl hr hb hf hc hd = omega arith

prepend :
    (x x' : Result Shape) (xs xs' : Result (List Shape))
    → NoCostlier x x'
    → NoCostlierAll xs xs'
    → NoCostlierAll (do a ← x; b ← xs; return (a ∷ b)) (do a ← x'; b ← xs'; return (a ∷ b))
prepend (return a) (return a') (return b) (return b') h k = (h, k)
prepend (return a) (return a') (raise e) (raise f) h k = k
prepend (raise e) (raise f) ys ys' h k = h
prepend (return a) (raise f) ys ys' h k = absurd h
prepend (raise e) (return a') ys ys' h k = absurd h
prepend (return a) (return a') (return b) (raise f) h k = absurd k
prepend (return a) (return a') (raise e) (return b') h k = absurd k

mutual
  unfolding shape

  node-le : (n : Node) → NoCostlier (shape surface n) (shape closed n)
  node-le (node i l r b p c d) =
      at-le i.op (step_shape surface i.step) (step_shape closed i.step) _ _ _ _ _ _ _ _ _ _ _ _
        (step-le i.step) (slot-le l) (slot-le r) (slot-le b) (fan_out-le b) (case_slot-le c)
        (default-le d)

  slot-le : (s : Slot) → NoCostlier (shape_slot surface s) (shape_slot closed s)
  slot-le absent = refl
  slot-le (present n) = node-le n

  fan_out-le : (s : Slot) → NoCostlier (shape_fan_out surface s) (shape_fan_out closed s)
  fan_out-le absent = omega arith
  fan_out-le (present n) = one dataflow _ _ (node-le n)

  default-le : (s : Slot) → NoCostlierAll (shape_default surface s) (shape_default closed s)
  default-le absent = tt
  default-le (present n) = prepend _ _ (return []) (return []) (node-le n) tt

  case_slot-le :
      (c : CaseSlot) → NoCostlierSwitch (shape_case_slot surface c) (shape_case_slot closed c)
  case_slot-le no_cases = tt
  case_slot-le (switch cs) = cases-le cs

  cases-le : (cs : Cases) → NoCostlierAll (shape_cases surface cs) (shape_cases closed cs)
  cases-le end = tt
  cases-le (case k n cs) = prepend _ _ _ _ (node-le n) (cases-le cs)

-- On every flow the two analyses both raise, or both return and the surface shape is at most the
-- closed shape.
pub surface-le-closed : (n : Node) → NoCostlier (surface_shape n) (closed_shape n)
unfolding surface_shape closed_shape
surface-le-closed n = node-le n
