-- ===== src/Dispatch.antt =====
-- julep/dispatch.py: the window of a batch. Clocks and durations are whole numbers of the smallest
-- tick, so a duration is finite.
pub mod Window
use julep.Prelude.{
  ℕ, zero, suc, ◌+◌, ◌-◌, Bool, true, false, ◌||◌, ltb, leb, ◌==◌, ℤ, pos, negsuc, pos_part, ltb_ℤ,
  Option, none, some, if◌then◌else◌, Result, return, raise, value_error,
}

pub data BatchTrigger : Type 0 where
  quiet max_items max_wait : BatchTrigger

pub record BatchWindowDecision : Type 0 where
  pub fire : Bool
  pub trigger : Option BatchTrigger
  pub deadline : Option ℕ
  pub wait_s : Option ℕ

-- The bounds that `__post_init__` lets through.
pub record BatchWindow : Type 0 where
  pub quiet_s : ℕ
  pub max_items : Option ℕ
  pub max_wait_s : Option ℕ

abbrev below : ℤ → Option ℤ → Bool
below limit none = false
below limit (some n) = ltb_ℤ n limit

abbrev natural : Option ℤ → Option ℕ
natural none = none
natural (some n) = some (pos_part n)

-- `BatchWindow(...)` with its `__post_init__`
unfoldable pub batch_window : (quiet_s : ℤ) → (max_items max_wait_s : Option ℤ) → Result BatchWindow
batch_window q items wait =
    if ltb_ℤ q (pos 0) || (below (pos 1) items || below (pos 0) wait)
    then raise value_error
    else return
        (record { quiet_s = pos_part q; max_items = natural items; max_wait_s = natural wait })

-- `self.max_items is not None and item_count >= self.max_items`
abbrev pub is_full : Option ℕ → ℕ → Bool
is_full none n = false
is_full (some k) n = leb k n

abbrev pub decision : BatchTrigger → (deadline now : ℕ) → BatchWindowDecision
decision t deadline now = record {
  fire = (deadline - now) == 0;
  trigger = some t;
  deadline = some deadline;
  wait_s = some (deadline - now);
}

-- The earlier of the two deadlines.
abbrev pub timed : Option ℕ → (opened_at deadline now : ℕ) → BatchWindowDecision
timed none opened_at deadline now = decision quiet deadline now
timed (some w) opened_at deadline now =
    if ltb (opened_at + w) deadline
    then decision max_wait (opened_at + w) now
    else decision quiet deadline now

abbrev pub filled : ℕ → BatchWindowDecision
filled now = record { fire = true; trigger = some max_items; deadline = some now; wait_s = some 0 }

abbrev decide :
    BatchWindow → ℕ → (opened_at last_arrival_at : Option ℕ) → ℕ → Result BatchWindowDecision
decide w n (some opened_at) (some last_at) now =
    if is_full w.max_items n
    then return (filled now)
    else return (timed w.max_wait_s opened_at (last_at + w.quiet_s) now)
decide w n _ _ now = raise value_error

-- `evaluate`: a negative count raises, and an empty batch waits without a deadline.
unfoldable pub evaluate :
    BatchWindow
    → (item_count : ℤ) → (opened_at last_arrival_at : Option ℕ) → (now : ℕ)
    → Result BatchWindowDecision
evaluate w (negsuc n) opened_at last_at now = raise value_error
evaluate w (pos zero) opened_at last_at now =
    return (record { fire = false; trigger = none; deadline = none; wait_s = none })
evaluate w (pos (suc n)) opened_at last_at now = decide w (suc n) opened_at last_at now
