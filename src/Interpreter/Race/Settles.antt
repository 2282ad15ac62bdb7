-- ===== src/Interpreter/Race/Settles.antt =====
-- A race of branches ends.
use julep.Prelude.{
  ℕ, zero, suc, ◌*◌, ◌≤◌, ◌≡◌, ◌≢◌, refl, inl, inr, Bool, true, false, not, ◌&&◌, ◌||◌, any, length,
  Bool-cases, Option, none, some, List, [], ◌∷◌, ℤ, if◌then◌else◌, arith,
}
use julep.Ir.{MergeKind}
use julep.Interpreter.Race.{
  Branch, running, Wake, Race, answered, all_failed, waiting, is_running, is_idle, process_done,
  start_next, needed, hedges, settlement, verdict, unless_ended, race_loop, armed, hedge_loop,
  all_running, all_idle, race_first,
}
use julep.Interpreter.Race.Left.{
  false-true, HasEnded, reports, Wakes, HedgeWakes, left, process_done-left, start_next-left,
  process_done-idle_eq, running-le-left, idle-le-left,
}

module _ {V E : Type 0} where
  ended_or :
      (o : Option (Race V E)) (more : Race V E)
      → ((r : Race V E) → o ≡ some r → HasEnded r)
      → (o ≡ none → HasEnded more)
      → HasEnded (unless_ended o more)
  ended_or none more h k = k refl
  ended_or (some r) more h k = h r refl

  module _ (kind : MergeKind) (need total : ℕ) where
    settlement-HasEnded :
        (bs : List (Branch V E)) (r : Race V E)
        → settlement kind need total bs ≡ some r
        → HasEnded r
    unfolding settlement
    settlement-HasEnded bs (answered a cs) e = tt
    settlement-HasEnded bs (all_failed es cs) e = tt
    settlement-HasEnded bs (waiting cs) e = ground arith

    verdict-HasEnded :
        (nothing_left : Bool) (bs : List (Branch V E)) (r : Race V E)
        → verdict kind need total nothing_left bs ≡ some r
        → HasEnded r
    unfolding verdict settlement
    verdict-HasEnded nothing_left bs (answered a cs) e = tt
    verdict-HasEnded nothing_left bs (all_failed es cs) e = tt
    verdict-HasEnded nothing_left bs (waiting cs) e = ground arith

    verdict-some :
        (nothing_left : Bool) (bs : List (Branch V E))
        → nothing_left ≡ true
        → verdict kind need total nothing_left bs ≢ none
    unfolding verdict settlement
    verdict-some nothing_left bs h e = ground arith

    -- An open race has something to wait for.
    left_over :
        (nothing_left : Bool) (bs : List (Branch V E))
        → verdict kind need total nothing_left bs ≡ none
        → nothing_left ≡ false
    left_over true bs e = absurd (verdict-some true bs refl e)
    left_over false bs e = refl

    plain-left :
        (w : Wake V E) (bs : List (Branch V E)) (n : ℕ)
        → not (any is_running bs) ≡ false
        → not (any is_running bs) || reports w 0 bs ≡ true
        → left bs ≤ suc n
        → left (process_done w 0 bs) ≤ n
    plain-left w bs n o h l = ground (arith, process_done-left w 0 bs)

    race_loop-HasEnded :
        (bs : List (Branch V E)) (ws : List (Wake V E))
        → Wakes bs ws
        → left bs ≤ length ws
        → HasEnded (race_loop kind need total bs ws)
    unfolding race_loop
    race_loop-HasEnded bs [] h l =
        ended_or _ _ (verdict-HasEnded (not (any is_running bs)) bs)
          (λ e. absurd (verdict-some _ bs (ground (arith, running-le-left bs)) e))
    race_loop-HasEnded bs (w ∷ ws) h l =
        ended_or _ _ (verdict-HasEnded (not (any is_running bs)) bs) (λ e.
          race_loop-HasEnded (process_done w 0 bs) ws h.1
            (plain-left w bs (length ws) (left_over _ bs e) h.0 l))

    timer_kept :
        (w : Wake V E) (timer : Bool) (bs : List (Branch V E))
        → (timer ≡ true → any is_idle bs ≡ true)
        → not (armed timer bs && w.timer) && armed timer bs ≡ true
        → any is_idle (
            if armed timer bs && w.timer
            then start_next (process_done w 0 bs)
            else process_done w 0 bs)
          ≡ true
    timer_kept w timer bs k h = ground (arith, process_done-idle_eq w 0 bs, k)

    step-left :
        (w : Wake V E) (timer : Bool) (bs : List (Branch V E)) (n : ℕ)
        → (timer ≡ true → any is_idle bs ≡ true)
        → not (any is_running bs || armed timer bs) ≡ false
        → not (any is_running bs || armed timer bs)
            || (reports w 0 bs || (armed timer bs && w.timer))
          ≡ true
        → left bs ≤ suc n
        → left (
            if armed timer bs && w.timer
            then start_next (process_done w 0 bs)
            else process_done w 0 bs)
          ≤ n
    step-left w timer bs n k o h l = ground (
      arith,
      process_done-left w 0 bs,
      process_done-idle_eq w 0 bs,
      start_next-left (process_done w 0 bs),
    )

    hedge_loop-HasEnded :
        (timer : Bool) (bs : List (Branch V E)) (ws : List (Wake V E))
        → (timer ≡ true → any is_idle bs ≡ true)
        → HedgeWakes timer bs ws
        → left bs ≤ length ws
        → HasEnded (hedge_loop kind need total timer bs ws)
    unfolding hedge_loop
    hedge_loop-HasEnded timer bs [] k h l =
        ended_or _ _ (verdict-HasEnded (not (any is_running bs || armed timer bs)) bs)
          (λ e. absurd (verdict-some _ bs (ground (arith, running-le-left bs, idle-le-left bs)) e))
    hedge_loop-HasEnded timer bs (w ∷ ws) k h l =
        ended_or _ _ (verdict-HasEnded (not (any is_running bs || armed timer bs)) bs) (λ e.
          ended_or _ _ (settlement-HasEnded (process_done w 0 bs)) (λ e'.
            hedge_loop-HasEnded (not (armed timer bs && w.timer) && armed timer bs)
              (if armed timer bs && w.timer
                then start_next (process_done w 0 bs)
                else process_done w 0 bs)
              ws (timer_kept w timer bs k) h.1
              (step-left w timer bs (length ws) k (left_over _ bs e) h.0 l)))

left-all_running : (V E : Type 0) (n : ℕ) → left {V = V} {E = E} (all_running {V = V} {E = E} n) ≡ n
left-all_running V E zero = refl
left-all_running V E (suc n) = omega (arith, left-all_running V E n)

left-all_idle : (V E : Type 0) (n : ℕ) → left {V = V} {E = E} (all_idle {V = V} {E = E} n) ≡ 2 * n
left-all_idle V E zero = refl
left-all_idle V E (suc n) = omega (arith, left-all_idle V E n)

module _ {V E : Type 0} where
  -- Each wait of a race that has something to wait for returns some of it.
  abbrev pub RaceWakes : MergeKind → Option ℤ → (total : ℕ) → List (Wake V E) → Type 0
  RaceWakes kind hedge_ms zero ws = Unit
  RaceWakes kind hedge_ms (suc n) ws =
      if hedges kind hedge_ms
      then HedgeWakes false (running ∷ all_idle n) ws
      else Wakes (all_running (suc n)) ws

  -- A race ends within twice as many waits as it has branches, if each wait that has something to wait
  -- for returns some of it: a branch that is running, or the timer of a hedge.
  pub race_settles :
      (kind : MergeKind) (m : ℕ) (hedge_ms : Option ℤ) (total : ℕ) (ws : List (Wake V E))
      → RaceWakes kind hedge_ms total ws
      → 2 * total ≤ length ws
      → HasEnded (race_first kind m hedge_ms total ws)
  unfolding race_first
  race_settles kind m hedge_ms zero ws h l = tt
  race_settles kind m hedge_ms (suc n) ws h l = elim (Bool-cases (hedges kind hedge_ms)) [
    | inl e ↦ rw e (
        hedge_loop-HasEnded kind (needed kind m) (suc n) false (running ∷ all_idle n) ws
          (λ f. absurd (false-true f)) (rw e at h) (omega (arith, left-all_idle V E n)))
    | inr e ↦ rw e (
        race_loop-HasEnded kind (needed kind m) (suc n) (all_running (suc n)) ws (rw e at h)
          (omega (arith, left-all_running V E n)))
  ]
