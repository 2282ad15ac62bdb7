-- ===== src/Samples/Batches.antt =====
-- A burst of three items under a window of at most two.
use julep.Prelude.{
  ◌≡◌, refl, ℕ, ◌+◌, leb, true, ◌⊎◌, pos, none, some, [], ◌∷◌, ◌++◌, concat, All, return, arith,
}
use julep.Dispatch.{BatchWindow, BatchWindowDecision, batch_window, evaluate}
use julep.Dispatch.Window.{wait_exact}
use julep.Debounce.{DebounceCollector, running, opened_collector, submit, begin, wake, settle}
use julep.Debounce.Steps.{Reaches, opens, submits, begins, wakes, is_open}
use julep.Debounce.Queue.{queued, IsBatch}
use julep.Debounce.Sent.{sent_in_order, sent_within_cap}
use julep.Debounce.Drain.{segments, Drained, drains_quiet}

program : Unit {0}
unfolding evaluate submit begin wake settle batch_window
program = tt

abbrev window : BatchWindow
window = record { quiet_s = 5; max_items = some 2; max_wait_s = none }

made : batch_window (pos 5) (some (pos 2)) none ≡ return window
unfolding program
made = refl

abbrev burst : DebounceCollector ℕ
unfolding program
burst = begin 1 (submit 30 1 (submit 20 1 (submit 10 0 opened_collector)))

burst-Reaches : Reaches window (10 ∷ 20 ∷ 30 ∷ []) burst
unfolding program
burst-Reaches = begins 1 _ _ (
    submits 30 1 (10 ∷ 20 ∷ []) _ refl
      (submits 20 1 (10 ∷ []) _ refl (submits 10 0 [] _ refl opens)))

abbrev fired : DebounceCollector ℕ
fired = record {
  items = 30 ∷ [];
  first_at = some 0;
  last_at = some 1;
  phase = running 0 0;
  sent = (10 ∷ 20 ∷ []) ∷ [];
}

fires : wake window 1 burst ≡ return fired
unfolding program
fires = refl

fired-Reaches : Reaches window (10 ∷ 20 ∷ 30 ∷ []) fired
fired-Reaches = wakes 1 _ burst fired fires burst-Reaches

sent_in_order_example :
    (concat fired.sent ++ queued window fired.phase fired.items ≡ 10 ∷ 20 ∷ 30 ∷ [])
    × ((is_open fired.phase ≡ true) ⊎ (concat fired.sent ≡ 10 ∷ 20 ∷ 30 ∷ []))
sent_in_order_example = sent_in_order window (10 ∷ 20 ∷ 30 ∷ []) fired (omega arith) fired-Reaches

sent_within_cap_example : All (IsBatch window) fired.sent
sent_within_cap_example =
    sent_within_cap window (10 ∷ 20 ∷ 30 ∷ []) fired (omega arith) fired-Reaches

drains_quiet_example :
    (d : DebounceCollector ℕ) × (segments window 3 6 burst ≡ return d)
    × Drained window [] (10 ∷ 20 ∷ 30 ∷ []) d
unfolding program
drains_quiet_example =
    drains_quiet window burst 0 0 1 6 (omega arith) refl refl (omega arith) (omega arith)

wait_exact_example :
    (d later : BatchWindowDecision) × (v : ℕ) × (evaluate window (pos 1) (some 0) (some 3) 7
      ≡ return d)
    × (d.wait_s ≡ some v)
    × (evaluate window (pos 1) (some 0) (some 3) (7 + 1) ≡ return later)
    × (later.fire ≡ leb v 1)
wait_exact_example = wait_exact window 0 0 3 7 1
