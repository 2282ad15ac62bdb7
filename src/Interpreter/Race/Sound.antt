-- ===== src/Interpreter/Race/Sound.antt =====
-- What a race of branches may answer, whatever its waits return.
use julep.Prelude.{
  if_either, ℕ, zero, suc, ◌+◌, ◌≤◌, ◌<◌, ◌≡◌, refl, sym, ap, ◌∙◌, ◌&&◌, Bool, true, false, not,
  any, length, take, ltb, leb, leb→le, ltb→lt, Option, none, some, List, [], ◌∷◌, In, here, there,
  ℤ, if◌then◌else◌, arith,
}
use julep.Ir.{MergeKind, all, race, hedge, quorum, unknown}
use julep.Interpreter.Race.Told.{
  Told, is_cancelled, Counts, process_done-Told, start_next-Told, cancel_all-Told,
  length-process_done, process_done-cancelled, start_next-Counts, cancel_all-keeps, all_done,
}
use julep.Interpreter.Race.{
  Branch, running, Wake, Answer, one, many, Race, answered, all_failed, waiting, is_running,
  is_idle, successes, failures, process_done, start_next, cancel_all, answer, needed, hedges,
  settlement, verdict, race_loop, armed, hedge_loop, all_running, all_idle, race_first,
}
use julep.Interpreter.Race.Cases.{
  needs_one, needed-pos, not-true, of_settlement, of_verdict, of_unless, process_done-idle,
  nothing_waits,
}

abbrev pub values : {V : Type 0} → Answer V → List V
values (one v) = v ∷ []
values (many vs) = vs

values-answer :
    {V : Type 0} (kind : MergeKind) (m : ℕ) (vs : List V)
    → needed kind m ≤ length vs
    → 1 ≤ m
    → values (answer kind (take (needed kind m) vs)) ≡ take (needed kind m) vs
unfolding answer
values-answer kind m [] h p = absurd (needed-pos kind m h p)
values-answer all m (v ∷ vs) h p = refl
values-answer race m (v ∷ vs) h p = refl
values-answer hedge m (v ∷ vs) h p = refl
values-answer quorum zero (v ∷ vs) h p = refl
values-answer quorum (suc m) (v ∷ vs) h p = refl
values-answer (unknown k) m (v ∷ vs) h p = refl

module _ {V E : Type 0} where
  -- The branches of an open race.
  abbrev Open : List (Wake V E) → ℕ → List (Branch V E) → Type 0
  Open ws total bs = Counts total bs × Told ws 0 bs

  -- The branches of a race that has ended.
  abbrev pub Ended : List (Wake V E) → ℕ → List (Branch V E) → Type 0
  Ended ws total bs = (length bs ≡ total) × (any is_running bs ≡ false) × Told ws 0 bs

  abbrev pub Right : List (Wake V E) → (need total : ℕ) → Race V E → Type 0
  Right ws need total (answered a bs) =
      (values a ≡ take need (successes bs)) × (need ≤ length (successes bs)) × Ended ws total bs
  Right ws need total (all_failed es bs) =
      (es ≡ failures bs) × (total < length (failures bs) + need) × Ended ws total bs
  Right ws need total (waiting bs) = Unit

  cancel_all-Ended :
      (ws : List (Wake V E)) (total : ℕ) (bs : List (Branch V E))
      → Open ws total bs
      → Ended ws total (cancel_all bs)
  cancel_all-Ended ws total bs o =
      let (l, s, f, r) = cancel_all-keeps bs in (l ∙ o.0.0, r, cancel_all-Told ws 0 bs o.1)

  module _ (kind : MergeKind) (m total : ℕ) (positive : 1 ≤ m) (ws : List (Wake V E)) where
    answered-Right :
        (bs : List (Branch V E))
        → Open ws total bs
        → needed kind m ≤ length (successes bs)
        → Right ws
            (needed kind m)
            total
            (answered (answer kind (take (needed kind m) (successes bs))) (cancel_all bs))
    answered-Right bs o h =
        let (l, s, f, r) = cancel_all-keeps bs in
        (
          values-answer kind m (successes bs) h positive ∙ ap (take (needed kind m)) (sym s),
          rw s h,
          cancel_all-Ended ws total bs o,
        )

    failed-Right :
        (bs : List (Branch V E))
        → Open ws total bs
        → total < length (failures bs) + needed kind m
        → Right ws (needed kind m) total (all_failed (failures bs) (cancel_all bs))
    failed-Right bs o h =
        let (l, s, f, r) = cancel_all-keeps bs in (sym f, rw f h, cancel_all-Ended ws total bs o)

    settlement-Right :
        (bs : List (Branch V E)) (r : Race V E)
        → Open ws total bs
        → settlement kind (needed kind m) total bs ≡ some r
        → Right ws (needed kind m) total r
    unfolding settlement
    settlement-Right bs r o e =
        of_settlement (Right ws (needed kind m) total) (leb (needed kind m) (length (successes bs)))
          (ltb total (length (failures bs) + needed kind m)) _ _ r e
          (λ h. answered-Right bs o (leb→le _ _ h)) (λ h. failed-Right bs o (ltb→lt _ _ h))

    open_short :
        (bs : List (Branch V E))
        → settlement kind (needed kind m) total bs ≡ none
        → length (successes bs) < needed kind m
    unfolding settlement
    open_short bs e = ground arith

    verdict-Right :
        (nothing_left : Bool) (bs : List (Branch V E)) (r : Race V E)
        → Open ws total bs
        → (nothing_left ≡ true → (any is_running bs ≡ false) × (any is_idle bs ≡ false))
        → verdict kind (needed kind m) total nothing_left bs ≡ some r
        → Right ws (needed kind m) total r
    unfolding verdict
    verdict-Right nothing_left bs r o left e =
        of_verdict (Right ws (needed kind m) total) (settlement kind (needed kind m) total bs)
          nothing_left _ r e (λ q h. settlement-Right bs q o h)
          (λ short h.
            failed-Right bs o
              (omega (arith, open_short bs short, all_done bs o.0.1 (left h).0 (left h).1, o.0.0)))

    process_done-Open :
        (w : Wake V E) (bs : List (Branch V E))
        → In w ws
        → Open ws total bs
        → Open ws total (process_done w 0 bs)
    process_done-Open w bs i o = (
      (length-process_done w 0 bs ∙ o.0.0, process_done-cancelled w 0 bs o.0.1),
      process_done-Told ws w 0 bs i o.1,
    )

    start_next-Open : (bs : List (Branch V E)) → Open ws total bs → Open ws total (start_next bs)
    start_next-Open bs o =
        let (l, c) = start_next-Counts bs o.0.1 in ((l ∙ o.0.0, c), start_next-Told ws 0 bs o.1)

    race_loop-Right :
        (bs : List (Branch V E)) (us : List (Wake V E))
        → ((u : Wake V E) → In u us → In u ws)
        → Open ws total bs
        → any is_idle bs ≡ false
        → Right ws (needed kind m) total (race_loop kind (needed kind m) total bs us)
    unfolding race_loop
    race_loop-Right bs [] sub o i =
        of_unless (Right ws (needed kind m) total) _ _
          (λ r e. verdict-Right _ bs r o (λ h. (not-true _ h, i)) e) tt
    race_loop-Right bs (u ∷ us) sub o i =
        of_unless (Right ws (needed kind m) total) _ _
          (λ r e. verdict-Right _ bs r o (λ h. (not-true _ h, i)) e)
          (race_loop-Right (process_done u 0 bs) us (λ w k. sub w (there k))
            (process_done-Open u bs (sub u here) o) (process_done-idle u 0 bs i))

    hedge_loop-Right :
        (timer : Bool) (bs : List (Branch V E)) (us : List (Wake V E))
        → ((u : Wake V E) → In u us → In u ws)
        → Open ws total bs
        → Right ws (needed kind m) total (hedge_loop kind (needed kind m) total timer bs us)
    unfolding hedge_loop
    hedge_loop-Right timer bs [] sub o =
        of_unless (Right ws (needed kind m) total) _ _
          (λ r e. verdict-Right _ bs r o (nothing_waits timer bs) e) tt
    hedge_loop-Right timer bs (u ∷ us) sub o =
        let after = process_done-Open u bs (sub u here) o in
        of_unless (Right ws (needed kind m) total) _ _
          (λ r e. verdict-Right _ bs r o (nothing_waits timer bs) e)
          (of_unless (Right ws (needed kind m) total) _ _
            (λ r e. settlement-Right (process_done u 0 bs) r after e)
            (hedge_loop-Right (not (armed timer bs && u.timer) && armed timer bs)
              (if armed timer bs && u.timer
                then start_next (process_done u 0 bs)
                else process_done u 0 bs)
              us (λ w k. sub w (there k))
              (if_either (Open ws total) (armed timer bs && u.timer) _ _
                (start_next-Open (process_done u 0 bs) after) after)))

  all_running-Open :
      (ws : List (Wake V E)) (i n : ℕ)
      → (length (all_running {V = V} {E = E} n) ≡ n)
        × (any is_cancelled (all_running {V = V} {E = E} n) ≡ false)
        × (any is_idle (all_running {V = V} {E = E} n) ≡ false)
        × Told ws i (all_running n)
  all_running-Open ws i zero = (refl, refl, refl, tt)
  all_running-Open ws i (suc n) =
      let (l, c, d, t) = all_running-Open ws (suc i) n in (ap suc l, c, d, (tt, t))

  all_idle-Open :
      (ws : List (Wake V E)) (i n : ℕ)
      → (length (all_idle {V = V} {E = E} n) ≡ n)
        × (any is_cancelled (all_idle {V = V} {E = E} n) ≡ false)
        × Told ws i (all_idle n)
  all_idle-Open ws i zero = (refl, refl, tt)
  all_idle-Open ws i (suc n) = let (l, c, t) = all_idle-Open ws (suc i) n in (ap suc l, c, (tt, t))

  -- Whatever the waits return, if at least one result is needed: an answer has as many results as are
  -- needed, those of the first branches in order that had succeeded by then, and the race fails only
  -- if too few branches can still succeed. In the end no branch is left running, and each that won or
  -- lost did so with what a wait returned for it.
  pub race_sound :
      (kind : MergeKind) (m : ℕ) (hedge_ms : Option ℤ) (total : ℕ) (ws : List (Wake V E))
      → 1 ≤ m
      → Right ws (needed kind m) total (race_first kind m hedge_ms total ws)
  unfolding race_first
  race_sound kind m hedge_ms zero ws p = (refl, needs_one kind m p, (refl, refl, tt))
  race_sound kind m hedge_ms (suc n) ws p =
      let (l, c, d, t) = all_running-Open ws 1 n in
      let (k, e, u) = all_idle-Open ws 1 n in
      if_either (Right ws (needed kind m) (suc n)) (hedges kind hedge_ms) _ _
        (hedge_loop-Right kind m (suc n) p ws false (running ∷ all_idle n) ws (λ w i. i)
          ((ap suc k, e), (tt, u)))
        (race_loop-Right kind m (suc n) p ws (running ∷ all_running n) ws (λ w i. i)
          ((ap suc l, c), (tt, t)) d)
