-- ===== src/Interpreter/Branches.antt =====
-- The operators of `_eval` of julep/execution/interpreter.py that evaluate children: `par`, `each`,
-- `alt`, `iter_up_to` and LOOP. `rec` is `interpret`. A turn of a LOOP, which runs until its session is
-- closed, spends one unit of fuel.
use julep.Prelude.{
  ℕ, zero, suc, Text, text, Bool, false, any, Option, none, some, List, [], ◌∷◌, ◌++◌, map,
  if◌then◌else◌,
}
use julep.Ir.{
  MergeKind, quorum, race_like, Info, Node, Slot, CaseSlot, no_cases, switch, Cases, info,
}
use julep.Derived.{flatten_race_group}
use julep.Validate.Calls.{reads_whole_session}
use julep.Interpreter.Env.{
  session_closed, framework, other, Reply, Run, ended, ok, raised, out_of_fuel, State, Eff, ◌>>=◌,
  done, throw, lift, from_result, required, outside, Values, Floats, Pure, Env, Concurrency,
}
use julep.Interpreter.Parts.{
  slot, get_case, kind_of, quorum_of, hedge_of, reducer_of, waves, split_result, loop_out_channel,
  all_branches,
}
use julep.Interpreter.Prims.{Res, values_of, reduce}

module _ {V W F : Type 0} (vs : Values V) (fl : Floats F) (env : Env V W F)
    (conc : Concurrency V W) where
  module _ (rec : Node → V → (causes : List ℕ) → Eff V W (Res V)) where
    -- One branch after the other.
    unfoldable pub in_turn : List (Eff V W (Res V)) → Eff V W (List (Res V))
    in_turn [] = done []
    in_turn (m ∷ ms) = do r ← m; rs ← in_turn ms; done (r ∷ rs)

    abbrev pub branch : V → ℕ → Node → Eff V W (Res V)
    branch v planned b = rec b v (planned ∷ [])

    -- `values if kind == "quorum" else values[0]`
    abbrev pub winner : MergeKind → List V → Reply V
    winner quorum out = ok (vs.listed out)
    winner _ [] = raised (other (text "IndexError()"))
    winner _ (v ∷ rest) = ok v

    -- `_eval_par`
    unfoldable pub eval_par : Node → V → (planned : ℕ) → Eff V W V
    unfolding flatten_race_group all_branches reads_whole_session in_turn
    eval_par n v planned =
        let raced = do
          branches ← from_result (flatten_race_group n)
          won ←
              conc.race_first (kind_of (info n).merge) (quorum_of (info n).merge)
                (hedge_of (info n).merge) (map (branch v planned) branches)
          out ← lift (winner (kind_of (info n).merge) (values_of won))
          reduce env (reducer_of (info n).merge) out
        in let joined = do
          branches ← lift (all_branches n)
          results ←
              (if any reads_whole_session branches
                then in_turn (map (branch v planned) branches)
                else conc.gather (map (branch v planned) branches))
          reduce env (reducer_of (info n).merge) (vs.listed (values_of results))
          in if race_like (kind_of (info n).merge) then raced else joined

    -- The waves of an `each`, one gather after the other.
    unfoldable pub gather_waves : List (List (Eff V W (Res V))) → Eff V W (List (Res V))
    gather_waves [] = done []
    gather_waves (ms ∷ mss) = do rs ← conc.gather ms; rest ← gather_waves mss; done (rs ++ rest)

    abbrev pub all_items : Node → (planned : ℕ) → List (List V) → List (List (Eff V W (Res V)))
    all_items b planned [] = []
    all_items b planned (xs ∷ xss) = map (λ x. branch x planned b) xs ∷ all_items b planned xss

    unfoldable pub eval_items : Node → Node → Option (List V) → (planned : ℕ) → Eff V W V
    unfolding reads_whole_session in_turn gather_waves waves
    eval_items n b none planned = throw framework
    eval_items n b (some items) planned = do
      results ←
          (if reads_whole_session b
            then in_turn (map (λ x. branch x planned b) items)
            else lift (waves (info n).bound items) >>= λ xss.
                gather_waves (all_items b planned xss))
      reduce env (info n).pure (vs.listed (values_of results))

    -- `_eval_each`
    unfoldable pub eval_each : Node → Node → V → (planned : ℕ) → Eff V W V
    unfolding eval_items
    eval_each n b v planned = eval_items n b (vs.items v) planned

    abbrev pub value_of : Res V → Eff V W V
    value_of r = done r.0

    -- `node.cases.get(key, node.default)`, for a key that may be no text.
    unfoldable pub chosen : Option Text → Cases → Slot → Option Node
    unfolding get_case
    chosen none cs d = slot d
    chosen (some k) cs d = elim (get_case k cs) [ none ↦ slot d | some n ↦ some n ]

    -- The branch that a key chose.
    abbrev pub take_branch : Option Node → V → (planned : ℕ) → Eff V W V
    take_branch none v planned = throw framework
    take_branch (some k) v planned = do res ← branch v planned k; value_of res

    unfoldable pub eval_alt : Info → (l r : Slot) → CaseSlot → (d : Slot) → V → ℕ → Eff V W V
    unfolding chosen
    eval_alt i l r (switch cs) d v planned = do
      select ← required i.select
      fn ← lift (env.get_pure select)
      out ← lift (fn none v)
      key ← lift (vs.case_key out)
      take_branch (chosen key cs d) v planned
    eval_alt i l r no_cases d v planned = do
      name ← required i.pure
      yes_branch ← required (slot l)
      no_branch ← required (slot r)
      pred ← lift (env.get_pure name)
      out ← lift (pred none v)
      test ← lift (vs.holds out)
      res ← branch v planned (if test then yes_branch else no_branch)
      value_of res

    abbrev pub converged : Option (Pure V) → V → Eff V W Bool
    converged none v = done false
    converged (some conv) v = do out ← lift (conv none v); lift (vs.holds out)

    -- The rounds of an `iter_up_to`.
    unfoldable pub rounds : ℕ → Option (Pure V) → Node → V → (last_event : ℕ) → Eff V W V
    rounds zero conv b cur last_event = done cur
    rounds (suc k) conv b cur last_event = do
      res ← branch cur last_event b
      stop ← converged conv res.0
      if stop then done res.0 else rounds k conv b res.0 res.1

    -- `env.get_pure(node.pure) if node.pure else None`
    abbrev pub convergence : Option Text → Eff V W (Option (Pure V))
    convergence none = done none
    convergence (some []) = done none
    convergence (some (c ∷ cs)) = do fn ← lift (env.get_pure (c ∷ cs)); done (some fn)

    abbrev pub carry_split : Option (V × V) → V → Text → (cid : Text) → Eff V W V
    carry_split none v channel cid = done v
    carry_split (some (carrier, output)) v channel cid = do
      _ ← outside (env.emit channel output cid)
      done carrier

    -- The next carrier, after an output was sent if the turn's result is split.
    unfoldable pub carry : Info → V → (cid : Text) → Eff V W V
    unfolding split_result
    carry i v cid =
        if split_result i.args
        then carry_split (vs.split v) v (loop_out_channel i.channels) cid
        else done v

    -- A turn that ends as its session is closed ends the loop.
    abbrev pub after_turn : Run (Res V) × State V W → V → (Res V → Eff V W V) → Run V × State V W
    after_turn (ended (ok r), s) carrier more = more r s
    after_turn (ended (raised session_closed), s) carrier more = (ended (ok carrier), s)
    after_turn (ended (raised e), s) carrier more = (ended (raised e), s)
    after_turn (out_of_fuel, s) carrier more = (out_of_fuel, s)

    unfoldable pub turns : ℕ → Info → Node → V → (last_event : ℕ) → (cid : Text) → Eff V W V
    unfolding carry
    turns zero i b carrier last_event cid s = (out_of_fuel, s)
    turns (suc f) i b carrier last_event cid s =
        after_turn (branch carrier last_event b s) carrier
          λ res. carry i res.0 cid >>= λ next. turns f i b next res.1 cid
