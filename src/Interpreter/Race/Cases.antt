-- ===== src/Interpreter/Race/Cases.antt =====
-- Cases on what a race has come to.
use julep.Prelude.{
  some_injective, ℕ, suc, ◌+◌, ◌≤◌, ◌<◌, ◌≡◌, refl, Bool, true, false, not, ◌||◌, any, or-eq_false,
  Option, none, some, List, [], ◌∷◌, if◌then◌else◌, arith,
}
use mathlib.Core.Path.{subst}
use julep.Ir.{MergeKind}
use julep.Interpreter.Race.{
  Outcome, success, failure, Branch, Wake, Race, is_running, is_idle, finish, process_done, needed,
  unless_ended, armed,
}

pub needs_one : (kind : MergeKind) (m : ℕ) → 1 ≤ m → 0 < 0 + needed kind m
needs_one kind m p = ground arith

pub needed-pos : (kind : MergeKind) (m : ℕ) → needed kind m ≤ 0 → 1 ≤ m → ⊥
needed-pos kind m h p = ground arith

pub not-true : (b : Bool) → not b ≡ true → b ≡ false
not-true b h = ground arith

module _ {V E : Type 0} where
  -- What holds of a result that a test chose.
  pub of_settlement :
      (P : Race V E → Type 0) (enough hopeless : Bool) (a f r : Race V E)
      → (if enough then some a else if hopeless then some f else none) ≡ some r
      → (enough ≡ true → P a)
      → (hopeless ≡ true → P f)
      → P r
  of_settlement P true hopeless a f r e h k = subst P (some_injective e) (h refl)
  of_settlement P false true a f r e h k = subst P (some_injective e) (k refl)
  of_settlement P false false a f r e h k = cc

  pub of_verdict :
      (P : Race V E → Type 0) (o : Option (Race V E)) (nothing_left : Bool) (f r : Race V E)
      → elim o [ some q ↦ some q | none ↦ if nothing_left then some f else none ] ≡ some r
      → ((q : Race V E) → o ≡ some q → P q)
      → (o ≡ none → nothing_left ≡ true → P f)
      → P r
  of_verdict P (some q) nothing_left f r e h k = subst P (some_injective e) (h q refl)
  of_verdict P none true f r e h k = subst P (some_injective e) (k refl refl)
  of_verdict P none false f r e h k = cc

  pub of_unless :
      (P : Race V E → Type 0) (o : Option (Race V E)) (more : Race V E)
      → ((q : Race V E) → o ≡ some q → P q)
      → P more
      → P (unless_ended o more)
  of_unless P none more h k = k
  of_unless P (some q) more h k = h q refl

  -- A finished branch is not waiting to be started.
  finish-idle :
      (o : Option (Outcome V E)) (b : Branch V E) → is_idle b ≡ false → is_idle (finish o b) ≡ false
  finish-idle none b h = ground arith
  finish-idle (some (success v)) b h = ground arith
  finish-idle (some (failure e)) b h = ground arith

  pub process_done-idle :
      (w : Wake V E) (i : ℕ) (bs : List (Branch V E))
      → any is_idle bs ≡ false
      → any is_idle (process_done w i bs) ≡ false
  unfolding process_done
  process_done-idle w i [] h = refl
  process_done-idle w i (b ∷ bs) h =
      let (p, q) = or-eq_false (is_idle b) _ h in
      rw (finish-idle (w.done i) b p) (process_done-idle w (suc i) bs q)

  pub nothing_waits :
      (timer : Bool) (bs : List (Branch V E))
      → not (any is_running bs || armed timer bs) ≡ true
      → (any is_running bs ≡ false) × (any is_idle bs ≡ false)
  nothing_waits timer bs h = ground arith
