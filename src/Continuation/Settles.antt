-- ===== src/Continuation/Settles.antt =====
-- When the driver of julep/continuation.py settles.
use julep.Prelude.{
  ℕ, zero, suc, ◌≤◌, ◌≡◌, refl, sym, ap, ◌∙◌, ◌↔◌, ℤ, pos_part, Option, none, some, Result, return,
  return_injective, >>=-eq-return, arith,
}
use julep.Json.{Json}
use julep.Continuation.{continuation_value, settle_or, chained, run_chained}

-- From the `i`th segment on, the flow gives `result` with its `n`th output, the first that is no
-- continuation; each output before it is the next input.
pub data Settles (run : ℕ → Json → Result Json) : ℕ → Json → Json → ℕ → Type 0 where
  last :
      (i : ℕ) (value result : Json)
      → run i value ≡ return result
      → continuation_value result ≡ none
      → Settles run i value result 1
  again :
      (i : ℕ) (value out next result : Json) (n : ℕ)
      → run i value ≡ return out
      → continuation_value out ≡ some next
      → Settles run (suc i) next result n
      → Settles run i value result (suc n)

module _ (run : ℕ → Json → Result Json) where
  Settles-chained :
      {i n : ℕ} {value result : Json} (left : ℕ)
      → Settles run i value result n
      → n ≤ left
      → chained run left i value ≡ return result
  unfolding chained
  Settles-chained zero (last i v r e h) l = absurd (omega (arith, l))
  Settles-chained (suc left) (last i v r e h) l = rw (e, h) refl
  Settles-chained zero (again i v o x r n e h s) l = absurd (omega (arith, l))
  Settles-chained (suc left) (again i v o x r n e h s) l =
      rw (e, h) (Settles-chained left s (omega (arith, l)))

  chained-Settles :
      (left i : ℕ) (value result : Json)
      → chained run left i value ≡ return result
      → (n : ℕ) × (n ≤ left) × Settles run i value result n
  unfolding chained
  chained-Settles zero i value result h = cc
  chained-Settles (suc left) i value result h =
      let (out, e, f) = >>=-eq-return (run i value) _ h in
      go (λ next k. chained-Settles left (suc i) next result k) out (continuation_value out) refl e
        f
    where
      go :
          ((next : Json)
            → chained run left (suc i) next ≡ return result
            → (n : ℕ) × (n ≤ left) × Settles run (suc i) next result n)
          → (out : Json) (o : Option Json) → continuation_value out ≡ o
          → run i value ≡ return out
          → settle_or out o (λ next. chained run left (suc i) next) ≡ return result
          → (n : ℕ) × (n ≤ suc left) × Settles run i value result n
      go ih out none k e f = (
        1,
        omega arith,
        last i value result (e ∙ f) (ap continuation_value (sym (return_injective f)) ∙ k),
      )
      go ih out (some next) k e f =
          let (n, l, s) = ih next f in
          (suc n, omega (arith, l), again i value out next result n e k s)

-- The driver returns a value exactly when the flow settles on it within `max_segments` segments; so what
-- it returns is never a continuation.
pub run_chained_exact :
    (run : ℕ → Json → Result Json) (input result : Json) (max_segments : ℤ)
    → (run_chained run input max_segments ≡ return result)
      ↔ ((n : ℕ) × (n ≤ pos_part max_segments) × Settles run 0 input result n)
unfolding run_chained
run_chained_exact run input result max_segments = (
  λ h. chained-Settles run (pos_part max_segments) 0 input result h,
  λ (n, l, s). Settles-chained run (pos_part max_segments) s l,
)
