-- ===== src/Debounce/Sent.antt =====
-- What a collector of julep/execution/debounce.py sends.
use julep.Prelude.{
  ℕ, ◌≡◌, refl, sym, ◌∙◌, true, inl, inr, ◌⊎◌, pos, Option, none, some, List, [], ◌∷◌, ◌++◌,
  append-nil, length, concat, All, return, if◌then◌else◌,
}
use julep.Dispatch.{BatchWindow, BatchWindowDecision, evaluate}
use julep.Dispatch.Window.{evaluate_exact}
use julep.Debounce.{
  DebounceCollector, Phase, starting, collecting, running, completed, wake_at, fire, when_some,
}
use julep.Debounce.Steps.{Reaches, is_open}
use julep.Debounce.Queue.{queued, Ready, CapPositive, IsBatch, reached-Holds}

module _ {A : Type 0} (w : BatchWindow) where
  round-returns :
      (s o now : ℕ) (c : DebounceCollector A) (items : List A) (last : Option ℕ)
      → Ready w (collecting s o) items last
      → (d : BatchWindowDecision) × (evaluate w (pos (length items)) (when_some items o) last now
          ≡ return d)
  unfolding evaluate
  round-returns s o now c [] last q = (_, refl)
  round-returns s o now c (x ∷ xs) none q = cc
  round-returns s o now c (x ∷ xs) (some t) q =
      let (d, e, f) = evaluate_exact w (length xs) o t now in (d, e)

  pub phase-returns :
      (p : Phase A) (now : ℕ) (c : DebounceCollector A)
      → Ready w p c.items c.last_at
      → (d : DebounceCollector A) × (wake_at w p now c ≡ return d)
  unfolding evaluate
  phase-returns (collecting s o) now c q =
      let (d, e) = round-returns s o now c c.items c.last_at q in
      (if d.fire then fire w.max_items s o c else c, rw e refl)
  phase-returns _ now c q = (c, refl)

-- Nothing is lost, doubled or reordered: in every state of a collector, the batches sent so far and
-- then the items that wait are the items submitted, in order of arrival; and a collector that has
-- returned has sent them all. The window's cap, if it has one, is at least one.
pub sent_in_order :
    {A : Type 0} (w : BatchWindow) (xs : List A) (c : DebounceCollector A)
    → CapPositive w.max_items
    → Reaches w xs c
    → (concat c.sent ++ queued w c.phase c.items ≡ xs)
      × ((is_open c.phase ≡ true) ⊎ (concat c.sent ≡ xs))
sent_in_order {A = A} w xs c k r =
    let (t, b, q) = reached-Holds w k r in (t, returned c.phase c.items t q)
  where
    returned :
        (p : Phase A) (ys : List A)
        → concat c.sent ++ queued w p ys ≡ xs
        → Ready w p ys c.last_at
        → (is_open p ≡ true) ⊎ (concat c.sent ≡ xs)
    returned (starting inp) ys t q = inl refl
    returned (collecting s o) ys t q = inl refl
    returned (running s o) ys t q = inl refl
    returned completed ys t q = inr (sym (append-nil (concat c.sent)) ∙ rw q at t)

-- Every batch that a collector sends has at least one item, and no more than the cap, if the window
-- has one, which is at least one.
pub sent_within_cap :
    {A : Type 0} (w : BatchWindow) (xs : List A) (c : DebounceCollector A)
    → CapPositive w.max_items
    → Reaches w xs c
    → All (IsBatch w) c.sent
sent_within_cap w xs c k r = let (t, b, q) = reached-Holds w k r in b
