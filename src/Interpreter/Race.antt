-- ===== src/Interpreter/Race.antt =====
-- `race_first_from_thunks` of julep/execution/interpreter.py. What `wait_first` returns, each time, is
-- an argument. `m` is not negative; a branch that raises before its first await is one that fails.
pub mod Left
pub mod Settles
pub mod Told
pub mod Sound
pub mod Cases
use julep.Prelude.{
  ℕ, zero, suc, ◌+◌, ◌-◌, Bool, true, false, not, ◌&&◌, ◌||◌, any, length, take, ltb, leb, Option,
  none, some, is_some, List, [], ◌∷◌, ℤ, pos, ltb_ℤ, if◌then◌else◌,
}
use julep.Ir.{MergeKind, hedge, quorum}

-- What became of a branch that is done.
pub data Outcome (V E : Type 0) : Type 0 where
  success : V → Outcome V E
  failure : E → Outcome V E

-- A branch: `idle` has no task yet, `won` is in `successes` and `lost` in `failures`.
pub data Branch (V E : Type 0) : Type 0 where
  idle running cancelled : Branch V E
  won : V → Branch V E
  lost : E → Branch V E

-- What one wait returns: the branches that are done, and whether the hedge timer is.
pub record Wake (V E : Type 0) : Type 0 where
  pub done : ℕ → Option (Outcome V E)
  pub timer : Bool

-- A single result, or the list of a quorum.
pub data Answer (V : Type 0) : Type 0 where
  one : V → Answer V
  many : List V → Answer V

-- `all_failed` is `RaceAllFailed`; `waiting` is a race that has not ended yet.
pub data Race (V E : Type 0) : Type 0 where
  answered : Answer V → List (Branch V E) → Race V E
  all_failed : List E → List (Branch V E) → Race V E
  waiting : List (Branch V E) → Race V E

abbrev is_quorum : MergeKind → Bool
is_quorum quorum = true
is_quorum _ = false

-- `ordered_successes if kind == "quorum" else ordered_successes[0]`
unfoldable pub answer : {V : Type 0} → MergeKind → List V → Answer V
answer kind [] = many []
answer kind (v ∷ vs) = if is_quorum kind then many (v ∷ vs) else one v

-- `m if kind == "quorum" else 1`
abbrev pub needed : MergeKind → ℕ → ℕ
needed quorum m = m
needed _ m = 1

-- `kind == "hedge" and hedge_ms is not None and hedge_ms > 0`
abbrev pub hedges : MergeKind → Option ℤ → Bool
hedges hedge (some ms) = ltb_ℤ (pos 0) ms
hedges _ _ = false

module _ {V E : Type 0} where
  abbrev pub is_running : Branch V E → Bool
  is_running running = true
  is_running _ = false

  abbrev pub is_idle : Branch V E → Bool
  is_idle idle = true
  is_idle _ = false

  -- `[successes[i] for i in sorted(successes)]`
  abbrev pub successes : List (Branch V E) → List V
  successes [] = []
  successes (won v ∷ bs) = v ∷ successes bs
  successes (_ ∷ bs) = successes bs

  -- `ordered_failures`
  abbrev pub failures : List (Branch V E) → List E
  failures [] = []
  failures (lost e ∷ bs) = e ∷ failures bs
  failures (_ ∷ bs) = failures bs

  abbrev pub finish : Option (Outcome V E) → Branch V E → Branch V E
  finish (some (success v)) running = won v
  finish (some (failure e)) running = lost e
  finish _ b = b

  unfoldable pub process_done : Wake V E → ℕ → List (Branch V E) → List (Branch V E)
  process_done w i [] = []
  process_done w i (b ∷ bs) = finish (w.done i) b ∷ process_done w (suc i) bs

  -- `start(next_idx)`
  unfoldable pub start_next : List (Branch V E) → List (Branch V E)
  start_next [] = []
  start_next (idle ∷ bs) = running ∷ bs
  start_next (b ∷ bs) = b ∷ start_next bs

  -- The `finally` clause.
  abbrev pub cancel : Branch V E → Branch V E
  cancel running = cancelled
  cancel b = b

  unfoldable pub cancel_all : List (Branch V E) → List (Branch V E)
  cancel_all [] = []
  cancel_all (b ∷ bs) = cancel b ∷ cancel_all bs

  abbrev pub unless_ended : Option (Race V E) → Race V E → Race V E
  unless_ended none more = more
  unless_ended (some r) more = r

  -- The timer is set if it is not and a branch is left to start.
  abbrev pub armed : (timer : Bool) → List (Branch V E) → Bool
  armed timer bs = timer || any is_idle bs

  module _ (kind : MergeKind) (need total : ℕ) where
    -- `none` if the race is open.
    unfoldable pub settlement : List (Branch V E) → Option (Race V E)
    unfolding answer cancel_all
    settlement bs =
        if leb need (length (successes bs))
        then some (answered (answer kind (take need (successes bs))) (cancel_all bs))
        else if ltb total (length (failures bs) + need)
        then some (all_failed (failures bs) (cancel_all bs))
        else none

    -- The settlement, and `RaceAllFailed` if there is nothing to wait for.
    unfoldable pub verdict : (nothing_left : Bool) → List (Branch V E) → Option (Race V E)
    unfolding settlement
    verdict nothing_left bs = elim (settlement bs) [
      | some r ↦ some r
      | none ↦ if nothing_left then some (all_failed (failures bs) (cancel_all bs)) else none
    ]

    -- The second loop: every branch is started.
    unfoldable pub race_loop : List (Branch V E) → List (Wake V E) → Race V E
    unfolding verdict process_done
    race_loop bs [] = unless_ended (verdict (not (any is_running bs)) bs) (waiting bs)
    race_loop bs (w ∷ ws) =
        unless_ended (verdict (not (any is_running bs)) bs) (race_loop (process_done w 0 bs) ws)

    -- The loop of a hedge, which starts a branch each time that the timer fires.
    unfoldable pub hedge_loop : (timer : Bool) → List (Branch V E) → List (Wake V E) → Race V E
    unfolding verdict process_done start_next
    hedge_loop timer bs [] =
        unless_ended (verdict (not (any is_running bs || armed timer bs)) bs) (waiting bs)
    hedge_loop timer bs (w ∷ ws) =
        let fired = armed timer bs && w.timer in
        let after = process_done w 0 bs in
        let more =
          hedge_loop (not fired && armed timer bs) (if fired then start_next after else after) ws in
        unless_ended (verdict (not (any is_running bs || armed timer bs)) bs)
          (unless_ended (settlement after) more)

  abbrev pub all_running : ℕ → List (Branch V E)
  all_running zero = []
  all_running (suc n) = running ∷ all_running n

  abbrev pub all_idle : ℕ → List (Branch V E)
  all_idle zero = []
  all_idle (suc n) = idle ∷ all_idle n

  unfoldable pub race_first :
      MergeKind → (m : ℕ) → Option ℤ → (total : ℕ) → List (Wake V E) → Race V E
  unfolding race_loop hedge_loop
  race_first kind m hedge_ms zero ws = all_failed [] []
  race_first kind m hedge_ms (suc n) ws =
      if hedges kind hedge_ms
      then hedge_loop kind (needed kind m) (suc n) false (running ∷ all_idle n) ws
      else race_loop kind (needed kind m) (suc n) (all_running (suc n)) ws
