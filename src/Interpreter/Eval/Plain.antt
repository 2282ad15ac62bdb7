-- ===== src/Interpreter/Eval/Plain.antt =====
-- The parts of `_eval` that record nothing and end.
use julep.Prelude.{ℕ, Text, false, Option, none, some, List, [], ◌∷◌}
use julep.Ir.{Info, Node, Slot, absent, present}
use julep.Interpreter.Env.{Eff, Values, Floats, Pure, Env, Concurrency}
use julep.Interpreter.Prims.{Res, reduce}
use julep.Interpreter.Branches.{converged, convergence, carry_split, carry}
use julep.Interpreter.Eval.{plan_of}
use julep.Interpreter.Eval.Keeps.{
  Finished, Grows, Grows-refl, Grows-trans, Keeps, Quiet, Quiet-Keeps, bind-Keeps, then-Keeps,
  bind-Quiet, done-Quiet, throw-Quiet, lift-Quiet, outside-Quiet, required-Quiet, from_result-Quiet,
  if-Quiet, if-Keeps,
}

pub ruleset quiet_rules = (
  bind-Quiet, done-Quiet, throw-Quiet, lift-Quiet, outside-Quiet, required-Quiet, from_result-Quiet,
)

module _ {V W F : Type 0} (env : Env V W F) where
  pub reduce-Quiet : (name : Option Text) (v : V) → Quiet (reduce env name v)
  reduce-Quiet none v = done-Quiet v
  reduce-Quiet (some name) v = search quiet_rules

module _ {V W F : Type 0} (vs : Values V) (fl : Floats F) (env : Env V W F) (conc : Concurrency V W)
    (rec : Node → V → List ℕ → Eff V W (Res V)) where
  pub converged-Quiet :
      (conv : Option (Pure V)) (v : V) → Quiet (converged vs fl env conc rec conv v)
  converged-Quiet none v = done-Quiet false
  converged-Quiet (some conv) v = bind-Quiet _ _ (lift-Quiet _) λ out. lift-Quiet _

  pub convergence-Quiet : (name : Option Text) → Quiet (convergence vs fl env conc rec name)
  convergence-Quiet none = done-Quiet none
  convergence-Quiet (some []) = done-Quiet none
  convergence-Quiet (some (c ∷ cs)) = bind-Quiet _ _ (lift-Quiet _) λ fn. done-Quiet _

  carry_split-Quiet :
      (o : Option (V × V)) (v : V) (channel cid : Text)
      → Quiet (carry_split vs fl env conc rec o v channel cid)
  carry_split-Quiet none v channel cid = done-Quiet v
  carry_split-Quiet (some (a, b)) v channel cid = bind-Quiet _ _ (outside-Quiet _) λ u. done-Quiet _

  pub carry-Quiet : (i : Info) (v : V) (cid : Text) → Quiet (carry vs fl env conc rec i v cid)
  unfolding carry
  carry-Quiet i v cid = if-Quiet _ _ _ (carry_split-Quiet _ v _ cid) (done-Quiet v)

  pub plan_of-Quiet :
      (p : Slot) (controller : Option Text) (v : V) (cid : Text)
      → Quiet (plan_of vs fl env conc rec p controller v cid)
  plan_of-Quiet (present x) controller v cid = done-Quiet x
  plan_of-Quiet absent controller v cid =
      bind-Quiet _ _ (required-Quiet controller) λ planner. outside-Quiet _
