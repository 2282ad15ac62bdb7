-- ===== src/Samples/Breaker.antt =====
-- The circuit breaker on a short history.
use julep.Prelude.{◌≡◌, refl, ◌↔◌, ◌<◌, text, text_eq, true, false, List, [], ◌∷◌, arith}
use julep.Resilience.Breaker.{
  CircuitBreaker, new, allow, record_failure, record_success, closed, half_open, state,
}
use julep.Resilience.Breaker.History.{
  Event, asks, succeeds, fails, run, failures_since_success, closed_iff, one_probe,
}

abbrev fresh : CircuitBreaker
fresh = record { threshold = 2; cooldown_s = 10; failures = []; opened_at = [] }

abbrev outage : List Event
outage =
    fails 0 (text "fetch")
    ∷ succeeds (text "store")
    ∷ fails 1 (text "fetch")
    ∷ asks 5 (text "store")
    ∷ []

closed_iff_example :
    (state 8 (run fresh outage) (text "fetch") ≡ closed)
    ↔ (failures_since_success (text "fetch") 0 outage < 2)
closed_iff_example = closed_iff 2 10 fresh outage 8 (text "fetch") (unfold new in refl)

abbrev tripped : CircuitBreaker
tripped = record {
  threshold = 2;
  cooldown_s = 10;
  failures = (text "fetch", 2) ∷ [];
  opened_at = (text "fetch", 1) ∷ [];
}

abbrev queue : List Event
queue = asks 12 (text "fetch") ∷ asks 13 (text "store") ∷ []

outage-tripped : run fresh outage ≡ tripped
unfolding run allow record_failure record_success text_eq
outage-tripped = refl

half_open_at_12 : state 12 tripped (text "fetch") ≡ half_open
unfolding state text_eq
half_open_at_12 = refl

one_probe_example :
    ((allow 12 tripped (text "fetch")).0 ≡ true)
    × ((allow 15 (run (allow 12 tripped (text "fetch")).1 queue) (text "fetch")).0 ≡ false)
one_probe_example =
    one_probe (text "fetch") 12 15 tripped queue half_open_at_12
      ((omega arith, omega arith), ((omega arith, omega arith), tt)) (omega arith) (omega arith)
