-- ===== src/Debounce/Drain.antt =====
-- How a collector of julep/execution/debounce.py ends once its items stop arriving.
use julep.Prelude.{
  append-nil, concat, ℕ, zero, suc, ◌+◌, ◌≤◌, ◌<◌, ◌≡◌, refl, sym, ap, ◌∙◌, Bool, true, le→leb,
  ◌||◌, or_else, pos, Option, none, some, List, [], ◌∷◌, ◌++◌, length, take, drop, length-drop,
  length-append, if◌then◌else◌, Result, return, ◌>>=◌, arith,
}
use mathlib.Core.Path.{subst}
use julep.Dispatch.{BatchWindow, BatchWindowDecision, is_full, evaluate}
use julep.Dispatch.Window.{evaluate_exact}
use julep.Debounce.{
  DebounceCollector, collecting, running, completed, begin, wake, settle, is_empty,
}
use julep.Debounce.Queue.{CapPositive, fire-taken}

shorter :
    {A : Type 0} (cap : Option ℕ) (x : A) (xs : List A)
    → CapPositive cap
    → length (drop (or_else cap (length (x ∷ xs))) (x ∷ xs)) ≤ length xs
shorter none x xs h = omega (arith, length-drop (length (x ∷ xs)) (x ∷ xs))
shorter (some k) x xs h = omega (arith, length-drop k (x ∷ xs), h)

module _ {A : Type 0} (w : BatchWindow) where
  -- The loop fires, the child returns, and the next segment starts.
  abbrev pub segment : (now : ℕ) → DebounceCollector A → Result (DebounceCollector A)
  unfolding wake begin settle
  segment now c = do d ← wake w now c; return (begin now (settle d))

  abbrev pub segments : ℕ → (now : ℕ) → DebounceCollector A → Result (DebounceCollector A)
  unfolding segment
  segments zero now c = return c
  segments (suc k) now c = do d ← segment now c; segments k now d

  abbrev waiting : List A → Option ℕ → ℕ → ℕ → ℕ → List (List A) → DebounceCollector A
  waiting items first t s o sent = record {
    items = items;
    first_at = first;
    last_at = some t;
    phase = collecting s o;
    sent = sent;
  }

  fires :
      (x : A) (xs : List A) (t o now : ℕ)
      → t + w.quiet_s ≤ now
      → (d : BatchWindowDecision) × (evaluate w (pos (length (x ∷ xs))) (some o) (some t) now
          ≡ return d)
        × (d.fire ≡ true)
  fires x xs t o now h =
      let (d, e, f) = evaluate_exact w (length xs) o t now in
      (d, e, f ∙ due (is_full w.max_items (suc (length xs))) _ _ (le→leb _ _ h))
    where
      due : (a b c : Bool) → b ≡ true → (a || (b || c)) ≡ true
      due a b c h = ground arith

  abbrev returned : List A → (first last : Option ℕ) → List (List A) → DebounceCollector A
  returned items first last sent = record {
    items = items;
    first_at = first;
    last_at = last;
    phase = completed;
    sent = sent;
  }

  -- It returned, and everything was sent.
  abbrev pub Drained : List (List A) → List A → DebounceCollector A → Type 0
  Drained sent items d = (d.phase ≡ completed) × (concat d.sent ≡ concat sent ++ items)

  completes :
      (k now : ℕ) (items : List A) (first last : Option ℕ) (sent : List (List A))
      → segments k now (returned items first last sent) ≡ return (returned items first last sent)
  unfolding segments wake begin settle
  completes zero now items first last sent = refl
  completes (suc k) now items first last sent = completes k now items first last sent

  drains :
      (n : ℕ) (items : List A) (first : Option ℕ) (t s o now : ℕ) (sent : List (List A))
      → CapPositive w.max_items
      → t + w.quiet_s ≤ now
      → 0 < length items
      → length items ≤ n
      → (d : DebounceCollector A) × (segments n now (waiting items first t s o sent) ≡ return d)
        × Drained sent items d
  unfolding segments wake begin settle
  drains zero items first t s o now sent c h l m = absurd (omega (arith, l, m))
  drains (suc n) [] first t s o now sent c h l m = absurd (omega (arith, l))
  drains (suc n) (x ∷ xs) first t s o now sent c h l m =
      let (q, e, f) = fires x xs t o now h in
      rw (e, f)
        (go (λ is f2 o2 s2 l2 m2. drains n is f2 t (suc s) o2 now s2 c h l2 m2)
          (drop (or_else w.max_items (length (x ∷ xs))) (x ∷ xs)) refl (shorter w.max_items x xs c))
    where
      go :
          ((is : List A) (first2 : Option ℕ) (o2 : ℕ) (sent2 : List (List A))
            → 0 < length is
            → length is ≤ n
            → (d : DebounceCollector A) × (segments n now (waiting is first2 t (suc s) o2 sent2)
                ≡ return d)
              × Drained sent2 is d)
          → (rest : List A) → rest ≡ drop (or_else w.max_items (length (x ∷ xs))) (x ∷ xs)
          → length rest ≤ length xs
          → (d : DebounceCollector A) × (segments n now (
                begin now (
                  settle (record {
                    items = rest;
                    first_at = if is_empty rest then none else first;
                    last_at = if is_empty rest then none else some t;
                    phase = running s o;
                    sent = sent ++ (take (or_else w.max_items (length (x ∷ xs))) (x ∷ xs) ∷ []);
                  })))
              ≡ return d)
            × Drained sent (x ∷ xs) d
      go ih [] e k = (
        _,
        completes n now [] none none _,
        (
          refl,
          sym (append-nil _)
              ∙ (ap
                    (λ z.
                      concat (sent ++ (take (or_else w.max_items (length (x ∷ xs))) (x ∷ xs) ∷ []))
                      ++ z)
                    e
                  ∙ fire-taken w (or_else w.max_items (length (x ∷ xs))) sent (x ∷ xs)),
        ),
      )
      go ih (y ∷ ys) e k =
          let (d, f, (p, all)) =
            ih ((y ∷ ys) ++ []) none (or_else first o) _ (omega (arith, length-append (y ∷ ys) []))
              (omega (arith, m, k, length-append (y ∷ ys) [])) in
          (
            d,
            f,
            (
              p,
              all
                  ∙ (ap
                        (λ z.
                          concat
                            (sent ++ (take (or_else w.max_items (length (x ∷ xs))) (x ∷ xs) ∷ []))
                          ++ z)
                        (append-nil (y ∷ ys) ∙ e)
                      ∙ fire-taken w (or_else w.max_items (length (x ∷ xs))) sent (x ∷ xs)),
            ),
          )

-- Once a collector in its loop has items and the quiet time has passed since the last arrival, it sends
-- them all, in order, and returns, within as many segments as it has items, if no more arrive and the
-- cap, if the window has one, is at least one.
pub drains_quiet :
    {A : Type 0} (w : BatchWindow) (c : DebounceCollector A) (s o t now : ℕ)
    → CapPositive w.max_items
    → c.phase ≡ collecting s o
    → c.last_at ≡ some t
    → 0 < length c.items
    → t + w.quiet_s ≤ now
    → (d : DebounceCollector A) × (segments w (length c.items) now c ≡ return d)
      × Drained w c.sent c.items d
drains_quiet w c s o t now k e h l q =
    subst
      (λ z.
        (d : DebounceCollector _) × (segments w (length c.items) now z ≡ return d)
        × Drained w c.sent c.items d)
      (ap
          (λ p. record {
            items = c.items;
            first_at = c.first_at;
            last_at = some t;
            phase = p;
            sent = c.sent;
          })
          (sym e)
        ∙ ap
            (λ b. record {
              items = c.items;
              first_at = c.first_at;
              last_at = b;
              phase = c.phase;
              sent = c.sent;
            })
            (sym h))
      (drains w (length c.items) c.items c.first_at t s o now c.sent k q l (omega arith))
