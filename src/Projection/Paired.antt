-- ===== src/Projection/Paired.antt =====
-- Well-formed projections: each activation that was planned is closed, and they are nested.
use julep.Prelude.{
  ℕ, ◌+◌, ◌≤◌, ◌<◌, ◌≡◌, refl, sym, ap, ◌∙◌, false, List, [], ◌∷◌, ◌++◌, append_assoc, append-nil,
  All, All-append, All-map, arith,
}
use julep.Projection.{
  planned, ProjectionEvent, ProjectionEmitter, drop_event, cancel_event, is_planned,
}

module _ {V : Type 0} where
  -- A list of activations, each with those that it caused inside.
  pub data Paired : List (ProjectionEvent V) → Type 0 where
    nothing : Paired []
    activation :
        (w t u : List (ProjectionEvent V)) (p q : ProjectionEvent V)
        → w ≡ p ∷ (t ++ q ∷ u)
        → p.type ≡ planned
        → is_planned q.type ≡ false
        → q.cid ≡ p.cid
        → q.node ≡ p.node
        → Paired t
        → Paired u
        → Paired w

  pub Paired-append : {t u : List (ProjectionEvent V)} → Paired t → Paired u → Paired (t ++ u)
  Paired-append nothing b = b
  Paired-append {u = v} (activation w t u p q e i j c n a b) k =
      activation (w ++ v) t (u ++ v) p q
        (ap (λ z. z ++ v) e ∙ ap (◌∷◌ p) (append_assoc t (q ∷ u) v)) i j c n a (Paired-append b k)

  -- All ids of an emitter's events are below its counter.
  abbrev pub Below : ProjectionEmitter V → Type 0
  Below e = All (λ ev. ev.event_id < e.ids) e.events

  pub append-Below :
      (e : ProjectionEmitter V) (ev : ProjectionEvent V)
      → ev.event_id ≡ e.ids
      → Below e
      → Below (record { ids = e.ids + 1; events = e.events ++ ev ∷ [] })
  append-Below e ev h b =
      All-append (λ x. x.event_id < e.ids + 1) e.events (ev ∷ [])
        (All-map (λ x. x.event_id < e.ids) (λ x. x.event_id < e.ids + 1) (λ x k. omega arith)
          e.events b)
        (omega arith, tt)

  -- What was added is paired, with new ids.
  pub record Extends (e e' : ProjectionEmitter V) : Type 0 where
    pub added : List (ProjectionEvent V)
    pub grown : e'.events ≡ e.events ++ added
    pub paired : Paired added
    pub fresh : All (λ ev. e.ids ≤ ev.event_id) added
    pub counted : All (λ ev. ev.event_id < e'.ids) added
    pub later : e.ids ≤ e'.ids

  pub Extends-refl : (e : ProjectionEmitter V) → Extends e e
  Extends-refl e = record {
    added = [];
    grown = sym (append-nil e.events);
    paired = nothing;
    fresh = tt;
    counted = tt;
    later = omega arith;
  }

  pub Extends-Below : {e e' : ProjectionEmitter V} → Below e → Extends e e' → Below e'
  Extends-Below {e} {e'} b x = rw x.grown (
      All-append (λ ev. ev.event_id < e'.ids) e.events x.added
        (All-map (λ ev. ev.event_id < e.ids) (λ ev. ev.event_id < e'.ids)
          (λ ev h. omega (arith, x.later)) e.events b)
        x.counted)

  pub Extends-trans : {e f g : ProjectionEmitter V} → Extends e f → Extends f g → Extends e g
  Extends-trans {e} {f} {g} x y = record {
    added = x.added ++ y.added;
    grown = y.grown ∙ (ap (λ z. z ++ y.added) x.grown ∙ append_assoc e.events x.added y.added);
    paired = Paired-append x.paired y.paired;
    fresh =
        All-append (λ ev. e.ids ≤ ev.event_id) x.added y.added x.fresh
          (All-map (λ ev. f.ids ≤ ev.event_id) (λ ev. e.ids ≤ ev.event_id)
            (λ ev h. omega (arith, x.later)) y.added y.fresh);
    counted =
        All-append (λ ev. ev.event_id < g.ids) x.added y.added
          (All-map (λ ev. ev.event_id < f.ids) (λ ev. ev.event_id < g.ids)
            (λ ev h. omega (arith, y.later)) x.added x.counted)
          y.counted;
    later = omega (arith, x.later, y.later);
  }

  drop_event-append :
      (id : ℕ) (xs ys : List (ProjectionEvent V))
      → drop_event id (xs ++ ys) ≡ drop_event id xs ++ drop_event id ys
  unfolding drop_event
  drop_event-append id [] ys = refl
  drop_event-append id (x ∷ xs) ys = ground (arith, drop_event-append id xs ys)

  drop_event-below :
      (id : ℕ) (xs : List (ProjectionEvent V))
      → All (λ ev. ev.event_id < id) xs
      → drop_event id xs ≡ xs
  unfolding drop_event
  drop_event-below id [] h = refl
  drop_event-below id (x ∷ xs) h = ground (arith, drop_event-below id xs)

  drop_event-above :
      (id : ℕ) (xs : List (ProjectionEvent V))
      → All (λ ev. id + 1 ≤ ev.event_id) xs
      → drop_event id xs ≡ xs
  unfolding drop_event
  drop_event-above id [] h = refl
  drop_event-above id (x ∷ xs) h = ground (arith, drop_event-above id xs)

  drop_event-head :
      (id : ℕ) (x : ProjectionEvent V) (xs : List (ProjectionEvent V))
      → x.event_id ≡ id
      → drop_event id (x ∷ xs) ≡ drop_event id xs
  unfolding drop_event
  drop_event-head id x xs h = ground arith

  module _ (e e1 e2 : ProjectionEmitter V) (p : ProjectionEvent V) (numbered : p.event_id ≡ e.ids)
      (opened : e1.events ≡ e.events ++ p ∷ []) (next : e1.ids ≡ e.ids + 1)
      (x : Extends e1 e2) where
    grown_inside : e2.events ≡ e.events ++ p ∷ x.added
    grown_inside =
        x.grown ∙ (ap (λ z. z ++ x.added) opened ∙ append_assoc e.events (p ∷ []) x.added)

    -- An activation that was planned and then closed.
    pub close-Extends :
        (e3 : ProjectionEmitter V) (q : ProjectionEvent V)
        → q.event_id ≡ e2.ids
        → e3.events ≡ e2.events ++ q ∷ []
        → e3.ids ≡ e2.ids + 1
        → p.type ≡ planned
        → is_planned q.type ≡ false
        → q.cid ≡ p.cid
        → q.node ≡ p.node
        → Extends e e3
    close-Extends e3 q id closed after i j c n = record {
      added = p ∷ (x.added ++ q ∷ []);
      grown =
          closed
          ∙ (ap (λ z. z ++ q ∷ []) grown_inside ∙ append_assoc e.events (p ∷ x.added) (q ∷ []));
      paired = activation _ x.added [] p q refl i j c n x.paired nothing;
      fresh = (
        omega arith,
        All-append (λ ev. e.ids ≤ ev.event_id) x.added (q ∷ [])
            (All-map (λ ev. e1.ids ≤ ev.event_id) (λ ev. e.ids ≤ ev.event_id) (λ ev h. omega arith)
              x.added x.fresh)
            (omega (arith, x.later), tt),
      );
      counted = (
        omega (arith, x.later),
        All-append (λ ev. ev.event_id < e3.ids) x.added (q ∷ [])
            (All-map (λ ev. ev.event_id < e2.ids) (λ ev. ev.event_id < e3.ids) (λ ev h. omega arith)
              x.added x.counted)
            (omega arith, tt),
      );
      later = omega (arith, x.later);
    }

    -- An activation that was planned and then taken back.
    pub cancel-Extends : Below e → Extends e (cancel_event e.ids e2)
    unfolding cancel_event
    cancel-Extends b = record {
      added = x.added;
      grown =
          ap (drop_event e.ids) grown_inside
          ∙ (drop_event-append e.ids e.events (p ∷ x.added)
              ∙ (ap (λ z. z ++ drop_event e.ids (p ∷ x.added)) (drop_event-below e.ids e.events b)
                  ∙ ap (λ z. e.events ++ z)
                      (drop_event-head e.ids p x.added numbered
                        ∙ drop_event-above e.ids x.added (
                            All-map (λ ev. e1.ids ≤ ev.event_id) (λ ev. e.ids + 1 ≤ ev.event_id)
                              (λ ev h. omega arith) x.added x.fresh))));
      paired = x.paired;
      fresh =
          All-map (λ ev. e1.ids ≤ ev.event_id) (λ ev. e.ids ≤ ev.event_id) (λ ev h. omega arith)
            x.added x.fresh;
      counted = x.counted;
      later = omega (arith, x.later);
    }
