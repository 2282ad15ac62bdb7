-- ===== src/Debounce/Queue.antt =====
-- The items of a collector of julep/execution/debounce.py.
use julep.Prelude.{
  ℕ, zero, suc, ◌≤◌, ◌≡◌, refl, sym, ap, ◌∙◌, true, false, Bool-cases, inl, inr, ◌⊎◌, is_some,
  or_else, pos, Option, none, some, List, [], ◌∷◌, ◌++◌, append_assoc, append-nil, length, take,
  drop, take_append_drop, length-take, concat, concat-append, All, All-append, ◌<◌, return,
  return_injective, >>=-eq-return, arith,
}
use mathlib.Core.Path.{subst}
use julep.Dispatch.{BatchWindow, BatchWindowDecision, evaluate}
use julep.Debounce.{
  DebounceCollector, Phase, starting, collecting, running, completed, submit, begin, begin_at, wake,
  wake_at, collect_once, fire, when_some, last_arrival, settle, settle_at,
}
use julep.Debounce.Steps.{Reaches, opens, submits, begins, wakes, settles, is_open}

-- The bounds of a batch.
abbrev pub Fits : Option ℕ → ℕ → Type 0
Fits none l = Unit
Fits (some k) l = l ≤ k

abbrev pub CapPositive : Option ℕ → Type 0
CapPositive none = Unit
CapPositive (some k) = 1 ≤ k

take_positive : {A : Type 0} (k : ℕ) (xs : List A) → 1 ≤ k → 0 < length xs → 1 ≤ length (take k xs)
take_positive zero xs h l = absurd (omega (arith, h))
take_positive (suc k) [] h l = absurd (omega (arith, l))
take_positive (suc k) (x ∷ xs) h l = omega arith

module _ {A : Type 0} (w : BatchWindow) where
  -- The items that wait for a batch.
  abbrev pub queued : Phase A → List A → List A
  queued (starting inp) items = inp.pending ++ items
  queued _ items = items

  queued-append : (p : Phase A) (items ys : List A) → queued p (items ++ ys) ≡ queued p items ++ ys
  queued-append (starting inp) items ys = sym (append_assoc inp.pending items ys)
  queued-append (collecting s o) items ys = refl
  queued-append (running s o) items ys = refl
  queued-append completed items ys = refl

  abbrev pub taken : DebounceCollector A → List A
  taken c = concat c.sent ++ queued c.phase c.items

  begin-taken :
      (p : Phase A) (now : ℕ) (c : DebounceCollector A)
      → c.phase ≡ p
      → taken (begin_at p now c) ≡ taken c
  begin-taken (starting inp) now c e = rw e refl
  begin-taken (collecting s o) now c e = refl
  begin-taken (running s o) now c e = refl
  begin-taken completed now c e = refl

  pub fire-taken :
      (k : ℕ) (sent : List (List A)) (items : List A)
      → concat (sent ++ (take k items ∷ [])) ++ drop k items ≡ concat sent ++ items
  fire-taken k sent items =
      rw (concat-append sent (take k items ∷ []), append-nil (take k items))
        (append_assoc (concat sent) (take k items) (drop k items)
          ∙ ap (λ z. concat sent ++ z) (take_append_drop k items))

  fires-nonempty :
      (items : List A) (o now : ℕ) (last : Option ℕ) (d : BatchWindowDecision)
      → evaluate w (pos (length items)) (when_some items o) last now ≡ return d
      → d.fire ≡ true
      → 0 < length items
  unfolding evaluate
  fires-nonempty [] o now last d e f = absurd (idle (ap (λ q. q.fire) (return_injective e) ∙ f))
    where
      idle : false ≡ true → ⊥
      idle h = cc
  fires-nonempty (x ∷ xs) o now last d e f = omega arith

  -- A round of the loop fires a batch of what is there, or leaves the collector as it is.
  collect-cases :
      (s o now : ℕ) (c d : DebounceCollector A)
      → collect_once w s o now c ≡ return d
      → (c ≡ d) ⊎ ((0 < length c.items) × (fire w.max_items s o c ≡ d))
  unfolding evaluate
  collect-cases s o now c d h =
      let (q, e, f) =
        >>=-eq-return (evaluate w (pos (length c.items)) (when_some c.items o) c.last_at now) _ h in
      elim (Bool-cases q.fire) [
        | inl yes_ ↦
            inr (fires-nonempty c.items o now c.last_at q e yes_, return_injective (rw yes_ at f))
        | inr no_ ↦ inl (return_injective (rw no_ at f))
      ]

  abbrev pub IsBatch : List A → Type 0
  IsBatch b = (1 ≤ length b) × Fits w.max_items (length b)

  -- What the loop needs, and what is left of a collector that has returned.
  abbrev pub Ready : Phase A → List A → Option ℕ → Type 0
  Ready (collecting s o) [] last = Unit
  Ready (collecting s o) (x ∷ xs) last = is_some last ≡ true
  Ready completed items last = items ≡ []
  Ready _ items last = Unit

  abbrev pub Holds : List A → DebounceCollector A → Type 0
  Holds xs c = (taken c ≡ xs) × All IsBatch c.sent × Ready c.phase c.items c.last_at

  batch-IsBatch :
      (cap : Option ℕ) (items : List A)
      → CapPositive cap
      → 0 < length items
      → (1 ≤ length (take (or_else cap (length items)) items))
        × Fits cap (length (take (or_else cap (length items)) items))
  batch-IsBatch none items h l = (take_positive (length items) items (omega (arith, l)) l, tt)
  batch-IsBatch (some k) items h l = (take_positive k items h l, length-take k items)

  begin-Holds :
      (p : Phase A) (now : ℕ) (xs : List A) (c : DebounceCollector A)
      → c.phase ≡ p
      → Holds xs c
      → Holds xs (begin_at p now c)
  begin-Holds (starting inp) now xs c e (t, b, r) = (rw e at t, b, started (inp.pending ++ c.items))
    where
      started :
          (ys : List A)
          → Ready
              (collecting inp.batch_seq (or_else inp.pending_first_at (or_else c.first_at now)))
              ys
              (last_arrival ys c.last_at inp.pending_last_at
                (or_else inp.pending_first_at (or_else c.first_at now)))
      started [] = tt
      started (y ∷ ys) = known c.last_at
        where
          known :
              (l : Option ℕ)
              → is_some (
                  last_arrival
                    (y ∷ ys)
                    l
                    inp.pending_last_at
                    (or_else inp.pending_first_at (or_else c.first_at now)))
                ≡ true
          known none = refl
          known (some t) = refl
  begin-Holds (collecting s o) now xs c e h = h
  begin-Holds (running s o) now xs c e h = h
  begin-Holds completed now xs c e h = h

  wake-Holds :
      (p : Phase A) (now : ℕ) (xs : List A) (c d : DebounceCollector A)
      → CapPositive w.max_items
      → c.phase ≡ p
      → wake_at w p now c ≡ return d
      → Holds xs c
      → Holds xs d
  unfolding evaluate
  wake-Holds (collecting s o) now xs c d k e h (t, b, r) = elim (collect-cases s o now c d h) [
    | inl same ↦ subst (λ q. Holds xs q) same (t, b, r)
    | inr (l, fired) ↦
        subst (λ q. Holds xs q) fired
          (
            fire-taken (or_else w.max_items (length c.items)) c.sent c.items ∙ rw e at t,
            All-append IsBatch c.sent _ b (batch-IsBatch w.max_items c.items k l, tt),
            tt,
          )
  ]
  wake-Holds (starting inp) now xs c d k e h g = subst (λ q. Holds xs q) (return_injective h) g
  wake-Holds (running s o) now xs c d k e h g = subst (λ q. Holds xs q) (return_injective h) g
  wake-Holds completed now xs c d k e h g = subst (λ q. Holds xs q) (return_injective h) g

  settle-Holds :
      (p : Phase A) (xs : List A) (c : DebounceCollector A)
      → c.phase ≡ p
      → Holds xs c
      → Holds xs (settle_at p c)
  settle-Holds (running s o) xs c e (t, b, r) = left_over c.items refl (rw e at t)
    where
      left_over :
          (ys : List A)
          → c.items ≡ ys
          → concat c.sent ++ c.items ≡ xs
          → Holds xs (settle_at (running s o) c)
      left_over [] h t = rw h (rw h at t, b, refl)
      left_over (y ∷ ys) h t =
          rw h (ap (λ z. concat c.sent ++ z) (append-nil (y ∷ ys)) ∙ rw h at t, b, tt)
  settle-Holds (starting inp) xs c e h = h
  settle-Holds (collecting s o) xs c e h = h
  settle-Holds completed xs c e h = h

  submit-Holds :
      (x : A) (now : ℕ) (xs : List A) (c : DebounceCollector A)
      → is_open c.phase ≡ true
      → Holds xs c
      → Holds (xs ++ (x ∷ [])) (submit x now c)
  unfolding submit
  submit-Holds x now xs c o (t, b, r) = (joined, b, ready c.phase c.items o)
    where
      joined : concat c.sent ++ queued c.phase (c.items ++ (x ∷ [])) ≡ xs ++ (x ∷ [])
      joined = rw (queued-append c.phase c.items (x ∷ [])) (
          sym (append_assoc (concat c.sent) (queued c.phase c.items) (x ∷ []))
          ∙ ap (λ z. z ++ (x ∷ [])) t)

      ready : (p : Phase A) (ys : List A) → is_open p ≡ true → Ready p (ys ++ (x ∷ [])) (some now)
      ready (starting inp) ys o = tt
      ready (collecting s q) [] o = refl
      ready (collecting s q) (y ∷ ys) o = refl
      ready (running s q) ys o = tt
      ready completed ys o = cc

  pub reached-Holds :
      {xs : List A} {c : DebounceCollector A}
      → CapPositive w.max_items
      → Reaches w xs c
      → Holds xs c
  unfolding begin wake settle
  reached-Holds k opens = (refl, tt, tt)
  reached-Holds k (submits x now xs c o r) = submit-Holds x now xs c o (reached-Holds k r)
  reached-Holds k (begins now xs c r) = begin-Holds c.phase now xs c refl (reached-Holds k r)
  reached-Holds k (wakes now xs c d h r) =
      wake-Holds c.phase now xs c d k refl h (reached-Holds k r)
  reached-Holds k (settles xs c r) = settle-Holds c.phase xs c refl (reached-Holds k r)
