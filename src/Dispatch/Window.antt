-- ===== src/Dispatch/Window.antt =====
-- When a batch window of julep/dispatch.py fires.
use julep.Prelude.{
  ℕ, suc, ◌+◌, ◌-◌, ◌≡◌, refl, ◌∙◌, Bool, true, false, inl, inr, Bool-cases, leb, ltb, ◌==◌, ◌||◌,
  pos, Option, none, some, return, arith,
}
use julep.Dispatch.{BatchWindow, BatchWindowDecision, filled, timed, is_full, evaluate}

-- Whether a duration has passed since a time, if there is one.
abbrev pub elapsed : Option ℕ → (since now : ℕ) → Bool
elapsed none since now = false
elapsed (some d) since now = leb (since + d) now

zero_minus : (a b : ℕ) → ((a - b) == 0) ≡ leb a b
zero_minus a b = ground arith

earlier : (a b now : ℕ) → ltb a b ≡ true → leb a now ≡ (leb b now || leb a now)
earlier a b now h = ground arith

later : (a b now : ℕ) → ltb a b ≡ false → leb b now ≡ (leb b now || leb a now)
later a b now h = ground arith

or_false : (b : Bool) → b ≡ (b || false)
or_false b = ground arith

timed-fire :
    (mw : Option ℕ) (o dl now : ℕ) → (timed mw o dl now).fire ≡ (leb dl now || elapsed mw o now)
timed-fire none o dl now = zero_minus dl now ∙ or_false (leb dl now)
timed-fire (some w) o dl now = elim (Bool-cases (ltb (o + w) dl)) [
  | inl e ↦ rw e (zero_minus (o + w) now ∙ earlier (o + w) dl now e)
  | inr e ↦ rw e (zero_minus dl now ∙ later (o + w) dl now e)
]

-- A non-empty batch fires exactly when it is full, when nothing arrived for the quiet time, or when
-- it was open for the longest time, if the window has these bounds.
pub evaluate_exact :
    (w : BatchWindow) (n opened_at last_at now : ℕ)
    → (d : BatchWindowDecision) × (evaluate w (pos (suc n)) (some opened_at) (some last_at) now
        ≡ return d)
      × (d.fire ≡ (
          is_full w.max_items (suc n)
          || (leb (last_at + w.quiet_s) now || elapsed w.max_wait_s opened_at now)))
unfolding evaluate
evaluate_exact w n opened_at last_at now = elim (Bool-cases (is_full w.max_items (suc n))) [
  | inl e ↦ (filled now, rw e refl, rw e refl)
  | inr e ↦ (
    timed w.max_wait_s opened_at (last_at + w.quiet_s) now,
    rw e refl,
    rw e (timed-fire w.max_wait_s opened_at (last_at + w.quiet_s) now),
  )
]

shifted : (a n k : ℕ) → ((a - (n + k)) == 0) ≡ leb (a - n) k
shifted a n k = ground arith

zero-leb : (k : ℕ) → true ≡ leb 0 k
zero-leb k = ground arith

timed-wait :
    (mw : Option ℕ) (o dl now k : ℕ)
    → (v : ℕ) × ((timed mw o dl now).wait_s ≡ some v) × ((timed mw o dl (now + k)).fire ≡ leb v k)
timed-wait none o dl now k = (dl - now, refl, shifted dl now k)
timed-wait (some w) o dl now k = elim (Bool-cases (ltb (o + w) dl)) [
  | inl e ↦ (o + w - now, rw e refl, rw e (shifted (o + w) now k))
  | inr e ↦ (dl - now, rw e refl, rw e (shifted dl now k))
]

-- A decision waits for exactly as long as it must: if no item arrives, the window fires `k` ticks later
-- exactly when `k` is at least the wait.
pub wait_exact :
    (w : BatchWindow) (n opened_at last_at now k : ℕ)
    → (d later : BatchWindowDecision) × (v : ℕ) × (evaluate w
          (pos (suc n))
          (some opened_at)
          (some last_at)
          now
        ≡ return d)
      × (d.wait_s ≡ some v)
      × (evaluate w (pos (suc n)) (some opened_at) (some last_at) (now + k) ≡ return later)
      × (later.fire ≡ leb v k)
unfolding evaluate
wait_exact w n opened_at last_at now k = elim (Bool-cases (is_full w.max_items (suc n))) [
  | inl e ↦ (filled now, filled (now + k), 0, rw e refl, refl, rw e refl, zero-leb k)
  | inr e ↦
      (let dl = last_at + w.quiet_s in
        let (v, a, b) = timed-wait w.max_wait_s opened_at dl now k in
        (
          timed w.max_wait_s opened_at dl now,
          timed w.max_wait_s opened_at dl (now + k),
          v,
          rw e refl,
          a,
          rw e refl,
          b,
        ))
]
