-- ===== src/Projection.antt =====
-- julep/projection.py: the events that an evaluation records, and what is pending. The store is
-- `InMemoryProjection`. An event id `e{n}` is its number `n`; an event has no timestamp, cost or
-- attributes, and holds its value in place of a reference to it.
pub mod Paired
pub mod Pending
use julep.Prelude.{
  ℕ, ◌+◌, ◌==◌, Text, text_eq, Bool, true, false, not, Option, none, some, List, [], ◌∷◌, ◌++◌,
  if◌then◌else◌, ◌⊎◌, inl, inr,
}
use julep.Kinds.{Shape}

pub data EventType : Type 0 where
  planned did failed : EventType

pub record ProjectionEvent (V : Type 0) : Type 0 where
  pub event_id : ℕ
  pub type : EventType
  pub node : Text
  pub cid : Text
  pub causes : List ℕ
  pub shape : Option Shape
  pub value : Option V
  pub error : Option Text

-- The emitter and its store.
pub record ProjectionEmitter (V : Type 0) : Type 0 where
  pub ids : ℕ
  pub events : List (ProjectionEvent V)

-- `latest[cid] = type`, on a dict by its entries.
unfoldable pub assign : Text → EventType → List (Text × EventType) → List (Text × EventType)
assign cid t [] = (cid, t) ∷ []
assign cid t ((k, u) ∷ d) = if text_eq k cid then (k, t) ∷ d else (k, u) ∷ assign cid t d

module _ {V : Type 0} where
  -- A fresh id, and the event that has it at the end of the store.
  abbrev pub append : ProjectionEmitter V → (ℕ → ProjectionEvent V) → ℕ × ProjectionEmitter V
  append e event = (e.ids, record { ids = e.ids + 1; events = e.events ++ event e.ids ∷ [] })

  unfoldable pub plan_event :
      (node cid : Text) → List ℕ → Shape → ProjectionEmitter V → ℕ × ProjectionEmitter V
  plan_event node cid causes shape e = append e λ id. record {
    event_id = id;
    type = planned;
    node = node;
    cid = cid;
    causes = causes;
    shape = some shape;
    value = none;
    error = none;
  }

  -- The id is taken before the value is stored; if `_values.put` raises, nothing is appended.
  abbrev pub append_stored :
      {E : Type 0}
      → (raises : Option E) → ProjectionEmitter V
      → (ℕ → ProjectionEvent V)
      → (E ⊎ ℕ) × ProjectionEmitter V
  append_stored none e event = let (id, next) = append e event in (inr id, next)
  append_stored (some x) e event = (inl x, record e { ids = e.ids + 1 })

  -- `put` is what `_values.put` raises on a value, if anything: it is not called on `None`.
  unfoldable pub did_event :
      {E : Type 0}
      → (put : V → Option E) → (node cid : Text) → V
      → Shape
      → List ℕ
      → ProjectionEmitter V
      → (E ⊎ ℕ) × ProjectionEmitter V
  did_event put node cid value shape causes e = append_stored (put value) e λ id. record {
    event_id = id;
    type = did;
    node = node;
    cid = cid;
    causes = causes;
    shape = some shape;
    value = some value;
    error = none;
  }

  unfoldable pub fail_event :
      (node cid error : Text) → List ℕ → ProjectionEmitter V → ℕ × ProjectionEmitter V
  fail_event node cid error causes e = append e λ id. record {
    event_id = id;
    type = failed;
    node = node;
    cid = cid;
    causes = causes;
    shape = none;
    value = none;
    error = some error;
  }

  -- `[event for event in events if event.event_id != event_id]`
  unfoldable pub drop_event : ℕ → List (ProjectionEvent V) → List (ProjectionEvent V)
  drop_event id [] = []
  drop_event id (e ∷ es) = if e.event_id == id then drop_event id es else e ∷ drop_event id es

  unfoldable pub cancel_event : ℕ → ProjectionEmitter V → ProjectionEmitter V
  unfolding drop_event
  cancel_event id e = record e { events = drop_event id e.events }

  unfoldable pub latest :
      List (Text × EventType) → List (ProjectionEvent V) → List (Text × EventType)
  unfolding assign
  latest d [] = d
  latest d (e ∷ es) = latest (assign e.cid e.type d) es

  unfoldable pub status_by_activation : List (ProjectionEvent V) → List (Text × EventType)
  unfolding latest
  status_by_activation es = latest [] es

abbrev pub is_planned : EventType → Bool
is_planned planned = true
is_planned _ = false

unfoldable pub pending_of : List (Text × EventType) → List Text
pending_of [] = []
pending_of ((cid, t) ∷ d) = if is_planned t then cid ∷ pending_of d else pending_of d

unfoldable pub pending : {V : Type 0} → List (ProjectionEvent V) → List Text
unfolding status_by_activation pending_of
pending es = pending_of (status_by_activation es)
