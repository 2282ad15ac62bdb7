-- ===== src/Interpreter/Eval/Projected.antt =====
-- Every evaluation leaves a well-formed projection.
use julep.Prelude.{
  ℕ, zero, suc, Text, any, ℤ, pos_part, Option, none, some, List, [], ◌∷◌, All, map,
}
use julep.Kinds.{Op}
use julep.Ir.{MergeKind, Info, Node, node, Slot, CaseSlot, no_cases, switch, info, race_like}
use julep.Validate.Calls.{reads_whole_session}
use julep.Interpreter.Env.{
  pure_execution, session_closed, policy, framework, other, Run, ended, ok, raised, out_of_fuel,
  State, Eff, Values, Floats, Pure, Env, Concurrency,
}
use julep.Interpreter.Order.{InOrder}
use julep.Interpreter.Parts.{kind_of}
use julep.Interpreter.Prims.{Res}
use julep.Interpreter.Prims.Quiet.{eval_prim-Quiet}
use julep.Interpreter.Branches.{
  in_turn, branch, eval_par, gather_waves, all_items, eval_items, eval_each, take_branch, eval_alt,
  rounds, after_turn, turns,
}
use julep.Interpreter.Eval.{eval_op, evaluate}
use julep.Interpreter.Eval.Plain.{
  quiet_rules, reduce-Quiet, converged-Quiet, convergence-Quiet, carry-Quiet, plan_of-Quiet,
}
use julep.Interpreter.Eval.Keeps.{
  Finished, Grows, Grows-refl, Grows-trans, Keeps, Quiet-Keeps, bind-Keeps, then-Keeps, done-Quiet,
  throw-Quiet, lift-Quiet, required-Quiet, from_result-Quiet, if-Keeps,
}

module _ {V W F : Type 0} (vs : Values V) (fl : Floats F) (env : Env V W F) (conc : Concurrency V W)
    (order : InOrder conc) (rec : Node → V → List ℕ → Eff V W (Res V))
    (kept : (n : Node) (v : V) (causes : List ℕ) → Keeps (rec n v causes)) where
  branch-Keeps : (v : V) (planned : ℕ) (n : Node) → Keeps (branch vs fl env conc rec v planned n)
  branch-Keeps v planned n = kept n v (planned ∷ [])

  -- Branches, or items, that each keep the projection.
  abbrev AllKeep : List (Eff V W (Res V)) → Type 0
  AllKeep ms = All (λ m. Keeps m) ms

  map-AllKeep :
      {A : Type 0} (f : A → Eff V W (Res V)) (xs : List A)
      → ((a : A) → Keeps (f a))
      → AllKeep (map f xs)
  map-AllKeep f [] h = tt
  map-AllKeep f (x ∷ xs) h = (h x, map-AllKeep f xs h)

  runs_of :
      (ms : List (Eff V W (Res V)))
      → AllKeep ms
      → All (λ m. (s : State V W) → Finished (m s).0 → Grows s (m s).1) ms
  runs_of [] h = tt
  runs_of (m ∷ ms) h = (h.0.grows, runs_of ms h.1)

  gather-Keeps : (ms : List (Eff V W (Res V))) → AllKeep ms → Keeps (conc.gather ms)
  gather-Keeps ms h = record {
    grows = order.gather_runs Grows Grows-refl Grows-trans ms (runs_of ms h);
  }

  race-Keeps :
      (kind : MergeKind) (m : ℤ) (hedge_ms : Option ℤ) (ms : List (Eff V W (Res V)))
      → AllKeep ms
      → Keeps (conc.race_first kind m hedge_ms ms)
  race-Keeps kind m hedge_ms ms h = record {
    grows = order.race_runs Grows Grows-refl Grows-trans kind m hedge_ms ms (runs_of ms h);
  }

  in_turn-Keeps : (ms : List (Eff V W (Res V))) → AllKeep ms → Keeps (in_turn vs fl env conc rec ms)
  unfolding in_turn
  in_turn-Keeps [] h = Quiet-Keeps _ (done-Quiet _)
  in_turn-Keeps (m ∷ ms) h =
      bind-Keeps m _ h.0
        λ r. bind-Keeps _ _ (in_turn-Keeps ms h.1) λ rs. Quiet-Keeps _ (done-Quiet _)

  gather_waves-Keeps :
      (mss : List (List (Eff V W (Res V))))
      → All AllKeep mss
      → Keeps (gather_waves vs fl env conc rec mss)
  unfolding gather_waves
  gather_waves-Keeps [] h = Quiet-Keeps _ (done-Quiet _)
  gather_waves-Keeps (ms ∷ mss) h =
      bind-Keeps _ _ (gather-Keeps ms h.0)
        λ rs. bind-Keeps _ _ (gather_waves-Keeps mss h.1) λ rest. Quiet-Keeps _ (done-Quiet _)

  all_items-Keep :
      (n : Node) (planned : ℕ) (xss : List (List V))
      → All AllKeep (all_items vs fl env conc rec n planned xss)
  all_items-Keep n planned [] = tt
  all_items-Keep n planned (xs ∷ xss) =
      (map-AllKeep _ xs (λ x. branch-Keeps x planned n), all_items-Keep n planned xss)

  eval_par-Keeps :
      (n : Node) (v : V) (planned : ℕ) → Keeps (eval_par vs fl env conc rec n v planned)
  unfolding eval_par
  eval_par-Keeps n v planned =
      if-Keeps (race_like (kind_of (info n).merge)) _ _
        (then-Keeps _ _ (from_result-Quiet _) λ branches.
          bind-Keeps _ _ (race-Keeps _ _ _ _ (map-AllKeep _ branches (branch-Keeps v planned)))
            λ won. then-Keeps _ _ (lift-Quiet _) λ out. Quiet-Keeps _ (reduce-Quiet env _ out))
        (then-Keeps _ _ (lift-Quiet _) λ branches.
          bind-Keeps _ _
            (if-Keeps (any reads_whole_session branches) _ _
              (in_turn-Keeps _ (map-AllKeep _ branches (branch-Keeps v planned)))
              (gather-Keeps _ (map-AllKeep _ branches (branch-Keeps v planned))))
            λ results. Quiet-Keeps _ (reduce-Quiet env _ _))

  eval_items-Keeps :
      (n b : Node) (items : Option (List V)) (planned : ℕ)
      → Keeps (eval_items vs fl env conc rec n b items planned)
  unfolding eval_items
  eval_items-Keeps n b none planned = Quiet-Keeps _ (throw-Quiet V _)
  eval_items-Keeps n b (some items) planned =
      bind-Keeps _ _
        (if-Keeps (reads_whole_session b) _ _
          (in_turn-Keeps _ (map-AllKeep _ items (λ x. branch-Keeps x planned b)))
          (then-Keeps _ _ (lift-Quiet _)
            λ xss. gather_waves-Keeps _ (all_items-Keep b planned xss)))
        λ results. Quiet-Keeps _ (reduce-Quiet env _ _)

  take_branch-Keeps :
      (k : Option Node) (v : V) (planned : ℕ) → Keeps (take_branch vs fl env conc rec k v planned)
  take_branch-Keeps none v planned = Quiet-Keeps _ (throw-Quiet V _)
  take_branch-Keeps (some k) v planned =
      bind-Keeps _ _ (branch-Keeps v planned k) λ res. Quiet-Keeps _ (done-Quiet _)

  eval_alt-Keeps :
      (i : Info) (l r : Slot) (c : CaseSlot) (d : Slot) (v : V) (planned : ℕ)
      → Keeps (eval_alt vs fl env conc rec i l r c d v planned)
  unfolding eval_alt
  eval_alt-Keeps i l r (switch cs) d v planned = then-Keeps _ _ (required-Quiet _) λ select.
      then-Keeps _ _ (lift-Quiet _) λ fn.
        then-Keeps _ _ (lift-Quiet _)
          λ out. then-Keeps _ _ (lift-Quiet _) λ key. take_branch-Keeps _ v planned
  eval_alt-Keeps i l r no_cases d v planned = then-Keeps _ _ (required-Quiet _) λ name.
      then-Keeps _ _ (required-Quiet _) λ x. then-Keeps _ _ (required-Quiet _) λ y.
        then-Keeps _ _ (lift-Quiet _) λ pred. then-Keeps _ _ (lift-Quiet _) λ out.
          then-Keeps _ _ (lift-Quiet _)
            λ test. bind-Keeps _ _ (branch-Keeps v planned _) λ res. Quiet-Keeps _ (done-Quiet _)

  rounds-Keeps :
      (k : ℕ) (conv : Option (Pure V)) (b : Node) (cur : V) (last_event : ℕ)
      → Keeps (rounds vs fl env conc rec k conv b cur last_event)
  unfolding rounds
  rounds-Keeps zero conv b cur last_event = Quiet-Keeps _ (done-Quiet _)
  rounds-Keeps (suc k) conv b cur last_event = bind-Keeps _ _ (branch-Keeps cur last_event b) λ res.
      then-Keeps _ _ (converged-Quiet vs fl env conc rec conv res.0)
        λ stop. if-Keeps stop _ _ (Quiet-Keeps _ (done-Quiet _)) (rounds-Keeps k conv b res.0 res.1)

  after_turn-Grows :
      (s : State V W) (x : Run (Res V) × State V W) (carrier : V) (more : Res V → Eff V W V)
      → (Finished x.0 → Grows s x.1)
      → ((r : Res V) → Keeps (more r))
      → Finished (after_turn vs fl env conc rec x carrier more).0
      → Grows s (after_turn vs fl env conc rec x carrier more).1
  after_turn-Grows s (ended (ok r), t) carrier more h k e =
      Grows-trans s t (more r t).1 (h tt) ((k r).grows t e)
  after_turn-Grows s (ended (raised (pure_execution a b)), t) carrier more h k e = h tt
  after_turn-Grows s (ended (raised session_closed), t) carrier more h k e = h tt
  after_turn-Grows s (ended (raised policy), t) carrier more h k e = h tt
  after_turn-Grows s (ended (raised framework), t) carrier more h k e = h tt
  after_turn-Grows s (ended (raised (other a)), t) carrier more h k e = h tt
  after_turn-Grows s (out_of_fuel, t) carrier more h k e = absurd e

  turns-Keeps :
      (f : ℕ) (i : Info) (b : Node) (carrier : V) (last_event : ℕ) (cid : Text)
      → Keeps (turns vs fl env conc rec f i b carrier last_event cid)
  unfolding turns
  turns-Keeps zero i b carrier last_event cid = record { grows = λ s e. absurd e }
  turns-Keeps (suc f) i b carrier last_event cid = record {
    grows = λ s.
        after_turn-Grows s (branch vs fl env conc rec carrier last_event b s) carrier _
          ((branch-Keeps carrier last_event b).grows s)
          (λ res.
            then-Keeps _ _ (carry-Quiet vs fl env conc rec i res.0 cid)
              (λ next. turns-Keeps f i b next res.1 cid));
  }

  eval_op-Keeps :
      (op : Op) (fuel : ℕ) (i : Info) (l r b p : Slot) (c : CaseSlot) (d : Slot) (v : V)
      (cid : Text) (planned : ℕ)
      → Keeps (eval_op vs fl env conc rec op fuel i l r b p c d v cid planned)
  unfolding eval_op eval_each
  eval_op-Keeps Op.ident fuel i l r b p c d v cid planned = Quiet-Keeps _ (done-Quiet v)
  eval_op-Keeps Op.arr fuel i l r b p c d v cid planned = Quiet-Keeps _ (search quiet_rules)
  eval_op-Keeps Op.prim fuel i l r b p c d v cid planned =
      Quiet-Keeps _ (eval_prim-Quiet vs fl env i.step _ v cid)
  eval_op-Keeps Op.seq fuel i l r b p c d v cid planned = then-Keeps _ _ (required-Quiet _) λ x.
      then-Keeps _ _ (required-Quiet _) λ y. bind-Keeps _ _ (branch-Keeps v planned x) λ first.
        bind-Keeps _ _ (branch-Keeps first.0 first.1 y) λ second. Quiet-Keeps _ (done-Quiet _)
  eval_op-Keeps Op.par fuel i l r b p c d v cid planned =
      eval_par-Keeps (node i l r b p c d) v planned
  eval_op-Keeps Op.each fuel i l r b p c d v cid planned =
      then-Keeps _ _ (required-Quiet _)
        λ x. eval_items-Keeps (node i l r b p c d) x (vs.items v) planned
  eval_op-Keeps Op.alt fuel i l r b p c d v cid planned = eval_alt-Keeps i l r c d v planned
  eval_op-Keeps Op.iter_up_to fuel i l r b p c d v cid planned =
      then-Keeps _ _ (required-Quiet _) λ x. then-Keeps _ _ (required-Quiet _) λ bound.
        then-Keeps _ _ (convergence-Quiet vs fl env conc rec i.pure)
          λ conv. rounds-Keeps (pos_part bound) conv x v planned
  eval_op-Keeps Op.loop fuel i l r b p c d v cid planned =
      then-Keeps _ _ (required-Quiet _) λ x. turns-Keeps fuel i x v planned cid
  eval_op-Keeps Op.eval_plan fuel i l r b p c d v cid planned =
      then-Keeps _ _ (plan_of-Quiet vs fl env conc rec p i.controller v cid)
        λ plan. bind-Keeps _ _ (branch-Keeps v planned plan) λ res. Quiet-Keeps _ (done-Quiet _)
  eval_op-Keeps Op.app fuel i l r b p c d v cid planned = Quiet-Keeps _ (search quiet_rules)

  pub evaluate-Keeps :
      (fuel : ℕ) (n : Node) (v : V) (cid : Text) (planned : ℕ)
      → Keeps (evaluate vs fl env conc rec fuel n v cid planned)
  unfolding evaluate
  evaluate-Keeps fuel (node i l r b p c d) v cid planned =
      eval_op-Keeps i.op fuel i l r b p c d v cid planned
