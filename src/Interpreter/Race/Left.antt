-- ===== src/Interpreter/Race/Left.antt =====
-- What is left to happen in a race, and which waits get on with it.
use julep.Prelude.{
  ℕ, suc, ◌+◌, ◌≤◌, ◌≡◌, refl, Bool, true, false, not, ◌&&◌, ◌||◌, any, is_some, Option, none, some,
  List, [], ◌∷◌, if◌then◌else◌, arith,
}
use julep.Interpreter.Race.{
  Outcome, success, failure, Branch, idle, running, Wake, Race, answered, all_failed, waiting,
  is_running, is_idle, finish, process_done, start_next, armed,
}

pub false-true : false ≡ true → ⊥
false-true h = cc

module _ {V E : Type 0} where
  abbrev pub HasEnded : Race V E → Type 0
  HasEnded (answered a bs) = Unit
  HasEnded (all_failed es bs) = Unit
  HasEnded (waiting bs) = ⊥

  -- The wait returned a branch that was running.
  abbrev pub reports : Wake V E → ℕ → List (Branch V E) → Bool
  reports w i [] = false
  reports w i (b ∷ bs) = is_running b && is_some (w.done i) || reports w (suc i) bs

  -- Each wait that has something to wait for returns some of it, as waits for the first to complete
  -- do.
  abbrev pub Wakes : List (Branch V E) → List (Wake V E) → Type 0
  unfolding process_done
  Wakes bs [] = Unit
  Wakes bs (w ∷ ws) =
      ((not (any is_running bs) || reports w 0 bs) ≡ true) × Wakes (process_done w 0 bs) ws

  abbrev pub HedgeWakes : (timer : Bool) → List (Branch V E) → List (Wake V E) → Type 0
  unfolding process_done start_next
  HedgeWakes timer bs [] = Unit
  HedgeWakes timer bs (w ∷ ws) =
      let fired = armed timer bs && w.timer in
      let after = process_done w 0 bs in
      ((not (any is_running bs || armed timer bs) || (reports w 0 bs || fired)) ≡ true)
      × HedgeWakes (not fired && armed timer bs) (if fired then start_next after else after) ws

  -- What is left to happen: a branch that is not started has to start and to end.
  abbrev pub cost : Branch V E → ℕ
  cost idle = 2
  cost running = 1
  cost _ = 0

  abbrev pub left : List (Branch V E) → ℕ
  left [] = 0
  left (b ∷ bs) = cost b + left bs

  finish-cost :
      (o : Option (Outcome V E)) (b : Branch V E)
      → cost (finish o b) + (if is_running b && is_some o then 1 else 0) ≤ cost b
  finish-cost none b = ground arith
  finish-cost (some (success v)) b = ground arith
  finish-cost (some (failure e)) b = ground arith

  pub process_done-left :
      (w : Wake V E) (i : ℕ) (bs : List (Branch V E))
      → left (process_done w i bs) + (if reports w i bs then 1 else 0) ≤ left bs
  unfolding process_done
  process_done-left w i [] = omega arith
  process_done-left w i (b ∷ bs) =
      ground (arith, finish-cost (w.done i) b, process_done-left w (suc i) bs)

  pub start_next-left :
      (bs : List (Branch V E)) → left (start_next bs) + (if any is_idle bs then 1 else 0) ≤ left bs
  unfolding start_next
  start_next-left [] = omega arith
  start_next-left (b ∷ bs) = ground (arith, start_next-left bs)

  finish-idle_eq : (o : Option (Outcome V E)) (b : Branch V E) → is_idle (finish o b) ≡ is_idle b
  finish-idle_eq none b = refl
  finish-idle_eq (some (success v)) b = ground arith
  finish-idle_eq (some (failure e)) b = ground arith

  pub process_done-idle_eq :
      (w : Wake V E) (i : ℕ) (bs : List (Branch V E))
      → any is_idle (process_done w i bs) ≡ any is_idle bs
  unfolding process_done
  process_done-idle_eq w i [] = refl
  process_done-idle_eq w i (b ∷ bs) =
      rw (finish-idle_eq (w.done i) b, process_done-idle_eq w (suc i) bs)

  pub running-le-left : (bs : List (Branch V E)) → left bs ≡ 0 → any is_running bs ≡ false
  running-le-left [] h = refl
  running-le-left (b ∷ bs) h = ground (arith, running-le-left bs)

  pub idle-le-left : (bs : List (Branch V E)) → left bs ≡ 0 → any is_idle bs ≡ false
  idle-le-left [] h = refl
  idle-le-left (b ∷ bs) h = ground (arith, idle-le-left bs)
