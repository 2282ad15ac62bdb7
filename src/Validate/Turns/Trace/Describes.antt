-- ===== src/Validate/Turns/Trace/Describes.antt =====
-- Classifications of julep/validate.py that are right about a trace, and how they combine.
use julep.Prelude.{
  ℕ, suc, ◌+◌, ◌*◌, ◌≤◌, ◌≡◌, refl, false, ◌&&◌, ◌||◌, ◌==◌, ℤ, pos, negsuc, pos_part, ◌≤ℤ◌, ◌*ℤ◌,
  +ℤ_parts, List, [], ◌∷◌, ◌++◌, In, here, there, arith,
}
use julep.Validate.Turns.{Turns, in_sequence, either, repeated, one_of}
use julep.Validate.Turns.Trace.{Event, receive, send, receives}
use julep.Validate.Turns.Trace.Count.{NonNeg}

-- The first channel operation, if any, is a receive.
abbrev pub StartsWithRecv : List Event → Type 0
StartsWithRecv [] = Unit
StartsWithRecv (receive ∷ t) = Unit
StartsWithRecv (send ∷ t) = ⊥

-- A classification that is right about one trace.
pub record Describes (c : Turns) (t : List Event) : Type 0 where
  pub low : c.min_recv ≤ receives t
  pub high : pos (receives t) ≤ℤ c.max_recv
  pub order : c.emit_first ≡ false → StartsWithRecv t

pub receives-append : (s t : List Event) → receives (s ++ t) ≡ receives s + receives t
receives-append [] t = omega arith
receives-append (receive ∷ s) t = omega (arith, receives-append s t)
receives-append (send ∷ s) t = receives-append s t

append-StartsWithRecv :
    (s t : List Event)
    → StartsWithRecv s
    → (receives s ≡ 0 → StartsWithRecv t)
    → StartsWithRecv (s ++ t)
append-StartsWithRecv [] t h k = k refl
append-StartsWithRecv (receive ∷ s) t h k = tt
append-StartsWithRecv (send ∷ s) t h k = absurd h

-- An early emit of the second part counts only if the first part may receive nothing.
sequence_order :
    (a b : Turns) (s : List Event)
    → (a.emit_first || (a.min_recv == 0 && b.emit_first)) ≡ false
    → a.min_recv ≤ receives s
    → receives s ≡ 0
    → b.emit_first ≡ false
sequence_order a b s h k e = ground arith

pub sequence-Describes :
    (a b : Turns) (s t : List Event)
    → Describes a s
    → Describes b t
    → Describes (in_sequence a b) (s ++ t)
sequence-Describes a b s t h k = record {
  low = omega (arith, h.low, k.low, receives-append s t);
  high = omega (arith, h.high, k.high, receives-append s t, +ℤ_parts a.max_recv b.max_recv);
  order = λ e.
      append-StartsWithRecv s t (h.order (ground arith))
        (λ z. k.order (sequence_order a b s e h.low z));
}

either_left : (a b : Turns) (t : List Event) → Describes a t → Describes (either a b) t
either_left a b t h = record {
  low = ground (arith, h.low);
  high = ground (arith, h.high);
  order = λ e. h.order (ground arith);
}

either_right : (a b : Turns) (t : List Event) → Describes b t → Describes (either a b) t
either_right a b t h = record {
  low = ground (arith, h.low);
  high = ground (arith, h.high);
  order = λ e. h.order (ground arith);
}

pub one_of-Describes :
    (cs : List Turns) (c : Turns) (t : List Event)
    → In c cs
    → Describes c t
    → Describes (one_of cs) t
unfolding one_of
one_of-Describes [] c t m h = elim m [ ]
one_of-Describes (x ∷ []) c t here h = h
one_of-Describes (x ∷ []) c t (there m) h = elim m [ ]
one_of-Describes (x ∷ y ∷ cs) c t here h = either_left x (one_of (y ∷ cs)) t h
one_of-Describes (x ∷ y ∷ cs) c t (there m) h =
    either_right x (one_of (y ∷ cs)) t (one_of-Describes (y ∷ cs) c t m h)

mul_pos : (a b : ℕ) → pos a *ℤ pos b ≡ pos (a * b)
unfolding ◌*ℤ◌
mul_pos a b = ground arith

le_product : (n k a b : ℕ) → n ≤ k * a → k ≤ b → n ≤ a * b
le_product n k a b h m = grind arith

-- The rounds that a bound allows receive at most the product.
product_bound :
    (n k : ℕ) (a b : ℤ)
    → n ≤ k * pos_part a
    → k ≤ pos_part b
    → pos 0 ≤ℤ a
    → pos 0 ≤ℤ b
    → pos n ≤ℤ a *ℤ b
product_bound n k (pos a) (pos b) h m p q = rw (mul_pos a b) (omega (arith, le_product n k a b h m))
product_bound n k (negsuc a) b h m p q = absurd (omega arith)
product_bound n k (pos a) (negsuc b) h m p q = absurd (omega arith)

pub empty-Describes : (c : Turns) → c.min_recv ≡ 0 → NonNeg c → Describes c []
empty-Describes c h k = record { low = omega arith; high = k; order = λ _. tt }

-- What a run of rounds of a body described by `c` receives.
abbrev pub RoundsBound : Turns → ℕ → List Event → Type 0
RoundsBound c k t =
    (receives t ≤ k * pos_part c.max_recv) × (c.emit_first ≡ false → StartsWithRecv t)

pub rounds-again :
    (c : Turns) (k : ℕ) (s t : List Event)
    → Describes c s
    → RoundsBound c k t
    → RoundsBound c (suc k) (s ++ t)
rounds-again c k s t h b = (
  grind (arith, h.high, b.0, receives-append s t),
  λ e. append-StartsWithRecv s t (h.order e) (λ _. b.1 e),
)

pub repeated-Describes :
    (c : Turns) (bound : ℤ) (k : ℕ) (t : List Event)
    → NonNeg c
    → pos 0 ≤ℤ bound
    → k ≤ pos_part bound
    → RoundsBound c k t
    → Describes (repeated bound c) t
repeated-Describes c bound k t n m le b = record {
  low = omega arith;
  high = product_bound (receives t) k c.max_recv bound b.0 le n m;
  order = b.1;
}
