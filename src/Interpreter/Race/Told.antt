-- ===== src/Interpreter/Race/Told.antt =====
-- What the waits of a race told of its branches, and what stays when the branches change.
use julep.Prelude.{
  ℕ, suc, ◌+◌, ◌≡◌, refl, ap, Bool, true, false, any, length, or-eq_false, Option, none, some, List,
  [], ◌∷◌, In, arith,
}
use julep.Interpreter.Race.{
  Outcome, success, failure, Branch, idle, running, cancelled, won, lost, Wake, is_running, is_idle,
  successes, failures, finish, process_done, start_next, cancel_all,
}

module _ {V E : Type 0} where
  abbrev pub is_cancelled : Branch V E → Bool
  is_cancelled cancelled = true
  is_cancelled _ = false

  -- The wait that returned how branch `i` ended.
  abbrev pub Tells : List (Wake V E) → ℕ → Branch V E → Type 0
  Tells ws i (won v) = (w : Wake V E) × In w ws × (w.done i ≡ some (success v))
  Tells ws i (lost e) = (w : Wake V E) × In w ws × (w.done i ≡ some (failure e))
  Tells ws i _ = Unit

  abbrev pub Told : List (Wake V E) → ℕ → List (Branch V E) → Type 0
  Told ws i [] = Unit
  Told ws i (b ∷ bs) = Tells ws i b × Told ws (suc i) bs

  finish-Tells :
      (ws : List (Wake V E)) (w : Wake V E) (i : ℕ) (o : Option (Outcome V E)) (b : Branch V E)
      → In w ws
      → w.done i ≡ o
      → Tells ws i b
      → Tells ws i (finish o b)
  finish-Tells ws w i none idle m e t = t
  finish-Tells ws w i none running m e t = t
  finish-Tells ws w i none cancelled m e t = t
  finish-Tells ws w i none (won v) m e t = t
  finish-Tells ws w i none (lost x) m e t = t
  finish-Tells ws w i (some (success v)) idle m e t = t
  finish-Tells ws w i (some (success v)) running m e t = (w, m, e)
  finish-Tells ws w i (some (success v)) cancelled m e t = t
  finish-Tells ws w i (some (success v)) (won u) m e t = t
  finish-Tells ws w i (some (success v)) (lost x) m e t = t
  finish-Tells ws w i (some (failure v)) idle m e t = t
  finish-Tells ws w i (some (failure v)) running m e t = (w, m, e)
  finish-Tells ws w i (some (failure v)) cancelled m e t = t
  finish-Tells ws w i (some (failure v)) (won u) m e t = t
  finish-Tells ws w i (some (failure v)) (lost x) m e t = t

  pub process_done-Told :
      (ws : List (Wake V E)) (w : Wake V E) (i : ℕ) (bs : List (Branch V E))
      → In w ws
      → Told ws i bs
      → Told ws i (process_done w i bs)
  unfolding process_done
  process_done-Told ws w i [] m t = tt
  process_done-Told ws w i (b ∷ bs) m t =
      (finish-Tells ws w i (w.done i) b m refl t.0, process_done-Told ws w (suc i) bs m t.1)

  pub start_next-Told :
      (ws : List (Wake V E)) (i : ℕ) (bs : List (Branch V E))
      → Told ws i bs
      → Told ws i (start_next bs)
  unfolding start_next
  start_next-Told ws i [] t = t
  start_next-Told ws i (idle ∷ bs) t = t
  start_next-Told ws i (running ∷ bs) t = (t.0, start_next-Told ws (suc i) bs t.1)
  start_next-Told ws i (cancelled ∷ bs) t = (t.0, start_next-Told ws (suc i) bs t.1)
  start_next-Told ws i (won v ∷ bs) t = (t.0, start_next-Told ws (suc i) bs t.1)
  start_next-Told ws i (lost e ∷ bs) t = (t.0, start_next-Told ws (suc i) bs t.1)

  pub cancel_all-Told :
      (ws : List (Wake V E)) (i : ℕ) (bs : List (Branch V E))
      → Told ws i bs
      → Told ws i (cancel_all bs)
  unfolding cancel_all
  cancel_all-Told ws i [] t = t
  cancel_all-Told ws i (idle ∷ bs) t = (t.0, cancel_all-Told ws (suc i) bs t.1)
  cancel_all-Told ws i (running ∷ bs) t = (t.0, cancel_all-Told ws (suc i) bs t.1)
  cancel_all-Told ws i (cancelled ∷ bs) t = (t.0, cancel_all-Told ws (suc i) bs t.1)
  cancel_all-Told ws i (won v ∷ bs) t = (t.0, cancel_all-Told ws (suc i) bs t.1)
  cancel_all-Told ws i (lost e ∷ bs) t = (t.0, cancel_all-Told ws (suc i) bs t.1)

  -- How many branches there are, and whether one was cancelled.
  abbrev pub Counts : ℕ → List (Branch V E) → Type 0
  Counts total bs = (length bs ≡ total) × (any is_cancelled bs ≡ false)

  pub length-process_done :
      (w : Wake V E) (i : ℕ) (bs : List (Branch V E)) → length (process_done w i bs) ≡ length bs
  unfolding process_done
  length-process_done w i [] = refl
  length-process_done w i (b ∷ bs) = ap suc (length-process_done w (suc i) bs)

  finish-cancelled :
      (o : Option (Outcome V E)) (b : Branch V E)
      → is_cancelled b ≡ false
      → is_cancelled (finish o b) ≡ false
  finish-cancelled none b h = ground arith
  finish-cancelled (some (success v)) b h = ground arith
  finish-cancelled (some (failure v)) b h = ground arith

  pub process_done-cancelled :
      (w : Wake V E) (i : ℕ) (bs : List (Branch V E))
      → any is_cancelled bs ≡ false
      → any is_cancelled (process_done w i bs) ≡ false
  unfolding process_done
  process_done-cancelled w i [] h = refl
  process_done-cancelled w i (b ∷ bs) h =
      let (p, q) = or-eq_false (is_cancelled b) _ h in
      rw (finish-cancelled (w.done i) b p) (process_done-cancelled w (suc i) bs q)

  pub start_next-Counts :
      (bs : List (Branch V E))
      → any is_cancelled bs ≡ false
      → (length (start_next bs) ≡ length bs) × (any is_cancelled (start_next bs) ≡ false)
  unfolding start_next
  start_next-Counts [] h = (refl, h)
  start_next-Counts (idle ∷ bs) h = (refl, h)
  start_next-Counts (running ∷ bs) h = let (p, q) = start_next-Counts bs h in (ap suc p, q)
  start_next-Counts (cancelled ∷ bs) h = cc
  start_next-Counts (won v ∷ bs) h = let (p, q) = start_next-Counts bs h in (ap suc p, q)
  start_next-Counts (lost e ∷ bs) h = let (p, q) = start_next-Counts bs h in (ap suc p, q)

  pub cancel_all-keeps :
      (bs : List (Branch V E))
      → (length (cancel_all bs) ≡ length bs)
        × (successes (cancel_all bs) ≡ successes bs)
        × (failures (cancel_all bs) ≡ failures bs)
        × (any is_running (cancel_all bs) ≡ false)
  unfolding cancel_all
  cancel_all-keeps [] = (refl, refl, refl, refl)
  cancel_all-keeps (b ∷ bs) = let h = cancel_all-keeps bs in ground arith

  -- With nothing left to run, every branch has won or lost.
  pub all_done :
      (bs : List (Branch V E))
      → any is_cancelled bs ≡ false
      → any is_running bs ≡ false
      → any is_idle bs ≡ false
      → length bs ≡ length (successes bs) + length (failures bs)
  all_done [] h r i = refl
  all_done (b ∷ bs) h r i = ground (arith, all_done bs)
