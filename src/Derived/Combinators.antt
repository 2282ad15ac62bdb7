-- ===== src/Derived/Combinators.antt =====
-- The combinators of julep/derived.py, over those of julep/dsl.py. `source` is what
-- `_capture_source` found on the stack.
use julep.Prelude.{
  ℕ, zero, suc, Text, text, false, ◌||◌, ℤ, pos, pos_part, ltb_ℤ, Option, none, some, List, [], ◌∷◌,
  length, if◌then◌else◌, Result, return, raise, value_error, ◌>>=◌,
}
use julep.Json.{Json, obj, field, end, str}
use julep.Kinds.{Op}
use julep.Ir.{
  Ann, Step, native_tool, Merge, MergeKind, all, race, hedge, quorum, SourceSpan, Node, recv_tool,
  emit_tool, human_gate_tool, sleep_tool,
}
use julep.Dsl.{nid, fresh, leaf, two, think}

-- The annotation of a leaf that only has a timeout.
abbrev pub timeout_of : Option ℤ → Option Ann
timeout_of none = none
timeout_of (some t) = some (record {
  cost = none;
  risk = none;
  cache = none;
  effect = none;
  timeout = some t;
  max_attempts = none;
  retry_interval_s = none;
  backoff_rate = none;
  batchable = false;
})

abbrev pub merge_of : MergeKind → (hedge_ms quorum_m : Option ℤ) → (reducer : Option Text) → Merge
merge_of k h q r = record { kind = k; hedge_ms = h; quorum_m = q; reducer = r }

-- `{"value": value} if value is not None else None`
abbrev value_args : Option Text → Option Json
value_args none = none
value_args (some v) = some (obj (field (text "value") (str v) end))

module _ (source : Option SourceSpan) where
  -- The loop of `_par_group`, which starts from the last branch.
  unfoldable pub fold_group : Merge → Text → Node → List Node → ℕ → Node × ℕ
  unfolding nid
  fold_group m tag x [] n = (x, n)
  fold_group m tag x (y ∷ ys) n =
      let (acc, k) = fold_group m tag y ys n in
      (two (record (fresh source Op.par tag k) { merge = some m }) x acc, suc k)

  -- `_par_group`
  unfoldable pub par_group : List Node → Merge → Text → ℕ → Result (Node × ℕ)
  unfolding fold_group
  par_group [] m tag n = raise value_error
  par_group (x ∷ xs) m tag n = return (fold_group m tag x xs n)

  unfoldable pub race_of : List Node → (reduce : Option Text) → ℕ → Result (Node × ℕ)
  unfolding par_group
  race_of flows reduce n = par_group flows (merge_of race none none reduce) (text "race") n

  unfoldable pub hedge_of :
      List Node → (hedge_ms : ℤ) → (reduce : Option Text) → ℕ → Result (Node × ℕ)
  unfolding par_group
  hedge_of flows ms reduce n =
      if ltb_ℤ ms (pos 0)
      then raise value_error
      else par_group flows (merge_of hedge (some ms) none reduce) (text "hedge") n

  unfoldable pub quorum_of : List Node → (k : ℤ) → (reduce : Option Text) → ℕ → Result (Node × ℕ)
  unfolding par_group
  quorum_of flows k reduce n =
      if ltb_ℤ k (pos 1) || ltb_ℤ (pos (length flows)) k
      then raise value_error
      else par_group flows (merge_of quorum none (some k) reduce) (text "quorum") n

  unfoldable pub map_n : List Node → (reducer : Option Text) → ℕ → Result (Node × ℕ)
  unfolding par_group
  map_n flows reducer n = par_group flows (merge_of all none none reducer) (text "mapn") n

  unfoldable pub map_reduce : List Node → Text → ℕ → Result (Node × ℕ)
  unfolding par_group
  map_reduce [] reduce n = raise value_error
  map_reduce (x ∷ xs) reduce n =
      par_group (x ∷ xs) (merge_of all none none (some reduce)) (text "mapreduce") n

  -- `[think(b) for b in reasoners]`
  unfoldable pub thinks : List Text → ℕ → List Node × ℕ
  unfolding think
  thinks [] n = ([], n)
  thinks (b ∷ bs) n =
      let (x, k) = think source b none none n in let (xs, j) = thinks bs k in (x ∷ xs, j)

  unfoldable pub vote : List Text → Text → ℕ → Result (Node × ℕ)
  unfolding par_group thinks
  vote [] agg n = raise value_error
  vote (b ∷ bs) agg n =
      let (xs, k) = thinks (b ∷ bs) n in
      par_group xs (merge_of all none none (some agg)) (text "vote") k

  abbrev times : ℕ → Text → List Text
  times zero t = []
  times (suc k) t = t ∷ times k t

  unfoldable pub review : Node → Text → (k : ℤ) → (agg : Option Text) → ℕ → Result (Node × ℕ)
  unfolding par_group thinks nid
  review main reviewer k agg n = if ltb_ℤ k (pos 1) then raise value_error else do
    let (xs, j) = thinks (times (pos_part k) reviewer) n
    group ← par_group xs (merge_of all none none agg) (text "review") j
    return (two (fresh source Op.seq (text "seq") group.1) main group.0, suc group.1)

  abbrev pub reserved_call : Text → Option Step
  reserved_call name =
      some (Step.call (record { tool = native_tool name; ctx = none; frozen_hash = none }))

  unfoldable pub recv : Text → (timeout_s : Option ℤ) → ℕ → Node × ℕ
  unfolding nid
  recv channel timeout_s n = (
    leaf (record (fresh source Op.prim (text "recv") n) {
      ann = timeout_of timeout_s;
      step = reserved_call recv_tool;
      prompt = some channel;
    }),
    suc n,
  )

  unfoldable pub emit : Text → (value : Option Text) → ℕ → Node × ℕ
  unfolding nid
  emit channel value n = (
    leaf (record (fresh source Op.prim (text "emit") n) {
      step = reserved_call emit_tool;
      prompt = some channel;
      args = value_args value;
    }),
    suc n,
  )

  unfoldable pub human_gate : (prompt : Option Text) → (timeout_s : Option ℤ) → ℕ → Node × ℕ
  unfolding nid
  human_gate prompt timeout_s n = (
    leaf (record (fresh source Op.prim (text "gate") n) {
      ann = timeout_of timeout_s;
      step = reserved_call human_gate_tool;
      prompt = prompt;
    }),
    suc n,
  )

  unfoldable pub delay : (seconds : ℤ) → ℕ → Result (Node × ℕ)
  unfolding nid
  delay seconds n =
      if ltb_ℤ seconds (pos 1)
      then raise value_error
      else return (
        leaf (record (fresh source Op.prim (text "delay") n) {
          ann = timeout_of (some seconds);
          step = reserved_call sleep_tool;
        }),
        suc n,
      )
