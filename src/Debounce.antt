-- ===== src/Debounce.antt =====
-- julep/execution/debounce.py: the collector that makes one batch of a burst of items. The engine's
-- timer and signals are the times and the order of the calls below. The configuration is carried
-- unchanged from segment to segment, and stands here as the window.
pub mod Steps
pub mod Queue
pub mod Sent
pub mod Drain
use julep.Prelude.{
  ℕ, zero, suc, ◌+◌, Bool, true, false, ◌&&◌, not, is_some, or_else, pos, Option, none, some, List,
  [], ◌∷◌, ◌++◌, length, take, drop, if◌then◌else◌, Result, return, raise, value_error, ◌>>=◌,
}
use julep.Dispatch.{BatchWindow, BatchWindowDecision, evaluate}

-- The fields of `DebounceInput` that a segment hands to the next one.
pub record DebounceInput (A : Type 0) : Type 0 where
  pub batch_seq : ℕ
  pub pending : List A
  pub pending_first_at : Option ℕ
  pub pending_last_at : Option ℕ

-- Where `run` is: before its first line, in the loop, at the child workflow, or returned.
pub data Phase (A : Type 0) : Type 0 where
  starting : DebounceInput A → Phase A
  collecting : (batch_seq : ℕ) → (opened : ℕ) → Phase A
  running : (batch_seq : ℕ) → (opened : ℕ) → Phase A
  completed : Phase A

-- `sent` are the batches that child workflows were started on.
pub record DebounceCollector (A : Type 0) : Type 0 where
  pub items : List A
  pub first_at : Option ℕ
  pub last_at : Option ℕ
  pub phase : Phase A
  pub sent : List (List A)

module _ {A : Type 0} where
  abbrev pub is_empty : List A → Bool
  is_empty [] = true
  is_empty (x ∷ xs) = false

  -- The first segment of a collector.
  abbrev pub opened_collector : DebounceCollector A
  opened_collector = record {
    items = [];
    first_at = none;
    last_at = none;
    phase =
        starting
          (record { batch_seq = 0; pending = []; pending_first_at = none; pending_last_at = none });
    sent = [];
  }

  unfoldable pub submit : A → (now : ℕ) → DebounceCollector A → DebounceCollector A
  submit x now c = record c {
    items = c.items ++ (x ∷ []);
    first_at = if is_empty c.items then some now else c.first_at;
    last_at = some now;
  }

  -- `if self._items and self._last_at is None`
  abbrev pub last_arrival : List A → (last pending_last : Option ℕ) → (opened : ℕ) → Option ℕ
  last_arrival [] last pending_last opened = last
  last_arrival (x ∷ xs) (some t) pending_last opened = some t
  last_arrival (x ∷ xs) none pending_last opened = some (or_else pending_last opened)

  abbrev pub start : DebounceInput A → (now : ℕ) → DebounceCollector A → DebounceCollector A
  start inp now c =
      let items = inp.pending ++ c.items in
      let opened = or_else inp.pending_first_at (or_else c.first_at now) in
      record c {
        items = items;
        last_at = last_arrival items c.last_at inp.pending_last_at opened;
        phase = collecting inp.batch_seq opened;
      }

  abbrev pub begin_at : Phase A → (now : ℕ) → DebounceCollector A → DebounceCollector A
  begin_at (starting inp) now c = start inp now c
  begin_at _ now c = c

  -- The lines of `run` before its loop.
  unfoldable pub begin : (now : ℕ) → DebounceCollector A → DebounceCollector A
  begin now c = begin_at c.phase now c

  -- `self._items[:cap], self._items[cap:]`, and the clocks of what is left.
  abbrev pub fire : Option ℕ → ℕ → ℕ → DebounceCollector A → DebounceCollector A
  fire max_items seq opened c =
      let cap = or_else max_items (length c.items) in
      let rest = drop cap c.items in
      record {
        items = rest;
        first_at = if is_empty rest then none else c.first_at;
        last_at = if is_empty rest then none else c.last_at;
        phase = running seq opened;
        sent = c.sent ++ (take cap c.items ∷ []);
      }

  -- `opened if self._items else None`
  abbrev pub when_some : List A → ℕ → Option ℕ
  when_some [] opened = none
  when_some (x ∷ xs) opened = some opened

  abbrev pub collect_once :
      BatchWindow → ℕ → ℕ → (now : ℕ) → DebounceCollector A → Result (DebounceCollector A)
  unfolding evaluate
  collect_once w seq opened now c = do
    d ← evaluate w (pos (length c.items)) (when_some c.items opened) c.last_at now
    return (if d.fire then fire w.max_items seq opened c else c)

  abbrev pub wake_at :
      BatchWindow → Phase A → (now : ℕ) → DebounceCollector A → Result (DebounceCollector A)
  unfolding evaluate
  wake_at w (collecting seq opened) now c = collect_once w seq opened now c
  wake_at w _ now c = return c

  -- One round of the loop of `run`.
  unfoldable pub wake : BatchWindow → (now : ℕ) → DebounceCollector A → Result (DebounceCollector A)
  unfolding evaluate
  wake w now c = wake_at w c.phase now c

  abbrev pub next_segment : ℕ → ℕ → DebounceCollector A → DebounceCollector A
  next_segment seq opened c = record {
    items = [];
    first_at = none;
    last_at = none;
    phase = starting (record {
      batch_seq = suc seq;
      pending = c.items;
      pending_first_at = some (or_else c.first_at opened);
      pending_last_at = c.last_at;
    });
    sent = c.sent;
  }

  abbrev pub settle_at : Phase A → DebounceCollector A → DebounceCollector A
  settle_at (running seq opened) c =
      if is_empty c.items then record c { phase = completed } else next_segment seq opened c
  settle_at _ c = c

  -- The child workflow has returned: the collector continues as new, or returns.
  unfoldable pub settle : DebounceCollector A → DebounceCollector A
  settle c = settle_at c.phase c
