-- ===== src/Resilience/Breaker/History.antt =====
-- The circuit breaker over a history of calls: what its state says of the events so far.
use julep.Prelude.{
  ℕ, ◌+◌, ◌≤◌, ◌<◌, ◌≡◌, ◌↔◌, refl, Text, text_eq, text_eq_iff, text_eq_self, get, true, false, leb,
  is_some, or_else, some, List, [], ◌∷◌, All, if◌then◌else◌, return, arith,
}
use julep.Resilience.Breaker.{
  CircuitBreaker, new, allow, record_success, record_failure, closed, half_open, state,
}
use julep.Resilience.Breaker.Laws.{get-pop, get-put}

-- A call that asks for permission, and the two ways to report on one.
pub data Event : Type 0 where
  asks : (now : ℕ) (key : Text) → Event
  succeeds : (key : Text) → Event
  fails : (now : ℕ) (key : Text) → Event

abbrev pub step : CircuitBreaker → Event → CircuitBreaker
step b (asks now key) = (allow now b key).1
step b (succeeds key) = record_success b key
step b (fails now key) = record_failure now b key

unfoldable pub run : CircuitBreaker → List Event → CircuitBreaker
run b [] = b
run b (e ∷ es) = run (step b e) es

-- The failures of a key since its last success, from a count before.
abbrev pub next_count : Text → ℕ → Event → ℕ
next_count k n (asks now key) = n
next_count k n (succeeds key) = if text_eq key k then 0 else n
next_count k n (fails now key) = if text_eq key k then n + 1 else n

unfoldable pub failures_since_success : Text → ℕ → List Event → ℕ
failures_since_success k n [] = n
failures_since_success k n (e ∷ es) = failures_since_success k (next_count k n e) es

-- The breaker holds the count `n` of the key, and is open for it when the count has reached the
-- threshold.
record Tracks (threshold : ℕ) (k : Text) (b : CircuitBreaker) (n : ℕ) : Type 0 where
  counted : or_else (get k b.failures) 0 ≡ n
  opened : is_some (get k b.opened_at) ≡ leb threshold n
  limit : b.threshold ≡ threshold

module _ (threshold : ℕ) (positive : 0 < threshold) (k : Text) where
  asks-Tracks :
      (b : CircuitBreaker) (n now : ℕ) (key : Text)
      → Tracks threshold k b n
      → Tracks threshold k (step b (asks now key)) n
  unfolding allow
  asks-Tracks b n now key t = record {
    counted = ground (arith, t.counted);
    opened = ground (arith, t.opened, get-put key k now b.opened_at, text_eq_iff key k);
    limit = ground (arith, t.limit);
  }

  succeeds-Tracks :
      (b : CircuitBreaker) (n : ℕ) (key : Text)
      → Tracks threshold k b n
      → Tracks threshold k (step b (succeeds key)) (next_count k n (succeeds key))
  unfolding record_success
  succeeds-Tracks b n key t = record {
    counted = ground (arith, t.counted, get-pop key k b.failures);
    opened = ground (arith, t.opened, get-pop key k b.opened_at);
    limit = t.limit;
  }

  fails-Tracks :
      (b : CircuitBreaker) (n now : ℕ) (key : Text)
      → Tracks threshold k b n
      → Tracks threshold k (step b (fails now key)) (next_count k n (fails now key))
  unfolding record_failure
  fails-Tracks b n now key t =
      let c = or_else (get key b.failures) 0 + 1 in
      record {
        counted = ground (arith, t.counted, get-put key k c b.failures, text_eq_iff key k);
        opened =
            ground (
              arith,
              t.opened,
              t.counted,
              t.limit,
              get-put key k now b.opened_at,
              text_eq_iff key k,
            );
        limit = ground (arith, t.limit);
      }

  run-Tracks :
      (es : List Event) (b : CircuitBreaker) (n : ℕ)
      → Tracks threshold k b n
      → Tracks threshold k (run b es) (failures_since_success k n es)
  unfolding run failures_since_success
  run-Tracks [] b n t = t
  run-Tracks (asks now key ∷ es) b n t = run-Tracks es _ _ (asks-Tracks b n now key t)
  run-Tracks (succeeds key ∷ es) b n t = run-Tracks es _ _ (succeeds-Tracks b n key t)
  run-Tracks (fails now key ∷ es) b n t = run-Tracks es _ _ (fails-Tracks b n now key t)

new-Tracks :
    (threshold cooldown : ℕ) (k : Text) (b : CircuitBreaker)
    → new threshold cooldown ≡ return b
    → (0 < threshold) × Tracks threshold k b 0
unfolding new get
new-Tracks threshold cooldown k b h =
    (ground arith, record { counted = ground arith; opened = ground arith; limit = ground arith })

state-closed :
    (threshold n now : ℕ) (k : Text) (b : CircuitBreaker)
    → Tracks threshold k b n
    → (state now b k ≡ closed) ↔ (n < threshold)
unfolding state
state-closed threshold n now k b t = ground (arith, t.opened)

-- After any history of a new breaker, it is closed for a key exactly when fewer failures than the
-- threshold were reported for that key since its last success, whatever happened to other keys.
pub closed_iff :
    (threshold cooldown : ℕ) (b : CircuitBreaker) (es : List Event) (now : ℕ) (k : Text)
    → new threshold cooldown ≡ return b
    → (state now (run b es) k ≡ closed) ↔ (failures_since_success k 0 es < threshold)
closed_iff threshold cooldown b es now k h =
    let (positive, start) = new-Tracks threshold cooldown k b h in
    state-closed threshold _ now k (run b es) (run-Tracks threshold positive k es b 0 start)

-- An event that only asks, before the window that opened at `start` is over.
abbrev pub AsksWithin : (start cooldown : ℕ) → Event → Type 0
AsksWithin start cooldown (asks now key) = (start ≤ now) × (now < start + cooldown)
AsksWithin start cooldown _ = ⊥

record Armed (k : Text) (start cooldown : ℕ) (b : CircuitBreaker) : Type 0 where
  at : get k b.opened_at ≡ some start
  window : b.cooldown_s ≡ cooldown

asks-Armed :
    (k : Text) (start cooldown : ℕ) (b : CircuitBreaker) (now : ℕ) (key : Text)
    → AsksWithin start cooldown (asks now key)
    → Armed k start cooldown b
    → Armed k start cooldown (step b (asks now key))
unfolding allow
asks-Armed k start cooldown b now key w a = record {
  at = ground (arith, a.at, a.window, get-put key k now b.opened_at, text_eq_iff key k);
  window = ground (arith, a.window);
}

run-Armed :
    (k : Text) (start cooldown : ℕ) (es : List Event) (b : CircuitBreaker)
    → All (AsksWithin start cooldown) es
    → Armed k start cooldown b
    → Armed k start cooldown (run b es)
unfolding run
run-Armed k start cooldown [] b w a = a
run-Armed k start cooldown (asks now key ∷ es) b w a =
    run-Armed k start cooldown es _ w.1 (asks-Armed k start cooldown b now key w.0 a)
run-Armed k start cooldown (succeeds key ∷ es) b w a = absurd w.0
run-Armed k start cooldown (fails now key ∷ es) b w a = absurd w.0

granted-Armed :
    (k : Text) (now : ℕ) (b : CircuitBreaker)
    → state now b k ≡ half_open
    → ((allow now b k).0 ≡ true) × Armed k now b.cooldown_s (allow now b k).1
unfolding state allow
granted-Armed k now b h = (
  ground arith,
  record {
    at = ground (arith, get-put k k now b.opened_at, text_eq_self k);
    window = ground arith;
  },
)

denied :
    (k : Text) (start now : ℕ) (b : CircuitBreaker)
    → Armed k start b.cooldown_s b
    → now < start + b.cooldown_s
    → start ≤ now
    → (allow now b k).0 ≡ false
unfolding allow
denied k start now b a h m = ground (arith, a.at)

-- A half-open key gets one probe: the first to ask is admitted, and everyone who asks for that key
-- within the next cooldown is turned away, while no outcome is reported, whoever asks for others.
pub one_probe :
    (k : Text) (now later : ℕ) (b : CircuitBreaker) (es : List Event)
    → state now b k ≡ half_open
    → All (AsksWithin now b.cooldown_s) es
    → now ≤ later
    → later < now + b.cooldown_s
    → ((allow now b k).0 ≡ true) × ((allow later (run (allow now b k).1 es) k).0 ≡ false)
one_probe k now later b es h w le lt =
    let (granted, armed) = granted-Armed k now b h in
    let end = run-Armed k now b.cooldown_s es (allow now b k).1 w armed in
    (
      granted,
      denied k now later (run (allow now b k).1 es) (record { at = end.at; window = refl })
          (omega (arith, end.window)) le,
    )
