-- ===== src/Resilience/Breaker.antt =====
-- `CircuitBreaker` of julep/resilience.py. The clock's value is an argument of each operation that
-- reads it; times and the cooldown are whole numbers of the clock's unit.
pub mod Laws
pub mod History
use julep.Prelude.{
  ℕ, suc, ◌+◌, ◌-◌, ◌≤◌, Text, text_eq, get, Bool, true, false, leb, or_else, Option, none, some,
  List, [], ◌∷◌, if◌then◌else◌, Result, return, raise, value_error,
}

pub record CircuitBreaker : Type 0 where
  pub threshold : ℕ
  pub cooldown_s : ℕ
  pub failures : List (Text × ℕ)
  pub opened_at : List (Text × ℕ)

-- `d.pop(key, None)`
unfoldable pub pop : Text → List (Text × ℕ) → List (Text × ℕ)
pop k [] = []
pop k ((j, v) ∷ d) = let rest = pop k d in if text_eq j k then rest else (j, v) ∷ rest

-- `d[key] = v`; the order of entries is never read.
unfoldable pub put : Text → ℕ → List (Text × ℕ) → List (Text × ℕ)
unfolding pop
put k v d = (k, v) ∷ pop k d

-- The constructor: a threshold below one is refused.
unfoldable pub new : ℕ → ℕ → Result CircuitBreaker
new threshold cooldown =
    if leb 1 threshold
    then return
        (record { threshold = threshold; cooldown_s = cooldown; failures = []; opened_at = [] })
    else raise value_error

-- `None` when closed; else whether the open window's cooldown has passed.
abbrev pub cooldown_elapsed : ℕ → CircuitBreaker → Text → Option Bool
cooldown_elapsed now b key = elim (get key b.opened_at) [
  | none ↦ none
  | some opened ↦ some (leb b.cooldown_s (now - opened))
]

abbrev re_armed : ℕ → CircuitBreaker → Text → CircuitBreaker
re_armed now b key = record b { opened_at = put key now b.opened_at }

-- Consuming: after the cooldown the caller is granted the single probe and the window is re-armed.
unfoldable pub allow : ℕ → CircuitBreaker → Text → Bool × CircuitBreaker
unfolding get put
allow now b key = elim (cooldown_elapsed now b key) [
  | none ↦ (true, b)
  | some true ↦ (true, re_armed now b key)
  | some false ↦ (false, b)
]

unfoldable pub record_success : CircuitBreaker → Text → CircuitBreaker
unfolding pop
record_success b key = record b { failures = pop key b.failures; opened_at = pop key b.opened_at }

unfoldable pub record_failure : ℕ → CircuitBreaker → Text → CircuitBreaker
unfolding get put
record_failure now b key =
    let count = or_else (get key b.failures) 0 + 1 in
    let counted = record b { failures = put key count b.failures } in
    if leb b.threshold count then re_armed now counted key else counted

pub data State : Type 0 where
  closed open_ half_open : State

-- A pure read; never consumes the probe.
unfoldable pub state : ℕ → CircuitBreaker → Text → State
unfolding get
state now b key = elim (cooldown_elapsed now b key) [
  | none ↦ closed
  | some true ↦ half_open
  | some false ↦ open_
]
