-- ===== src/Debounce/Steps.antt =====
-- The states that a collector of julep/execution/debounce.py can be in, with the items submitted to
-- it while it was open.
use julep.Prelude.{ℕ, ◌≡◌, Bool, true, false, List, [], ◌∷◌, ◌++◌, return}
use julep.Dispatch.{BatchWindow}
use julep.Debounce.{
  DebounceCollector, Phase, completed, opened_collector, submit, begin, wake, settle,
}

-- A signal reaches a workflow that has not returned.
abbrev pub is_open : {A : Type 0} → Phase A → Bool
is_open completed = false
is_open _ = true

pub data Reaches {A : Type 0} (w : BatchWindow) : List A → DebounceCollector A → Type 0 where
  opens : Reaches w [] opened_collector
  submits :
      (x : A) (now : ℕ) (xs : List A) (c : DebounceCollector A)
      → is_open c.phase ≡ true
      → Reaches w xs c
      → Reaches w (xs ++ (x ∷ [])) (submit x now c)
  begins :
      (now : ℕ) (xs : List A) (c : DebounceCollector A)
      → Reaches w xs c
      → Reaches w xs (begin now c)
  wakes :
      (now : ℕ) (xs : List A) (c d : DebounceCollector A)
      → wake w now c ≡ return d
      → Reaches w xs c
      → Reaches w xs d
  settles : (xs : List A) (c : DebounceCollector A) → Reaches w xs c → Reaches w xs (settle c)
