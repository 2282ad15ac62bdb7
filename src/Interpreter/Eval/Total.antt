-- ===== src/Interpreter/Eval/Total.antt =====
-- `interpret` ends on static flows.
use julep.Prelude.{◌⊎◌, inl, inr, ℕ, zero, suc, ◌≤◌, ◌≡◌, true, List, All, length, ap, arith}
use julep.Kinds.{Shape}
use julep.Ir.{Node, info, walk}
use julep.Ir.Walk.{walk-children}
use julep.Interpreter.Env.{
  Fault, ok, raised, Run, ended, out_of_fuel, State, Eff, Values, Floats, Env, Concurrency,
}
use julep.Interpreter.Order.{InOrder}
use julep.Interpreter.Static.{is_static, Small}
use julep.Projection.{ProjectionEmitter}
use julep.Interpreter.Eval.{recorded, settle, planning, activation, evaluate, interpret}
use julep.Interpreter.Eval.Keeps.{Finished, from_result-Quiet}
use julep.Interpreter.Eval.Rules.{Ends, bind-Ends, then-Ends}
use julep.Interpreter.Eval.Ends.{evaluate-Ends}
use julep.Interpreter.Eval.Settled.{next_cid-Quiet}

module _ {V W F : Type 0} (vs : Values V) (fl : Floats F) (env : Env V W F) (conc : Concurrency V W)
    (order : InOrder conc) where
  recorded-Finished :
      (v : V) (r : (Fault ⊎ ℕ) × ProjectionEmitter V) (s : State V W)
      → Finished (recorded vs fl env conc v r s).0
  recorded-Finished v (inr id, e) s = tt
  recorded-Finished v (inl f, e) s = tt

  settle-Finished :
      (id cid : List ℕ) (shape : Shape) (planned : ℕ) (x : Run V × State V W)
      → Finished x.0
      → Finished (settle vs fl env conc id cid shape planned x).0
  unfolding settle
  settle-Finished id cid shape planned (ended (ok v), s) h = recorded-Finished v _ s
  settle-Finished id cid shape planned (ended (raised e), s) h = tt
  settle-Finished id cid shape planned (out_of_fuel, s) h = h

  activation-Ends :
      (eval : (cid : List ℕ) → (planned : ℕ) → Eff V W V) (n : Node) (causes : List ℕ)
      → ((cid : List ℕ) (planned : ℕ) → Ends (eval cid planned))
      → Ends (activation vs fl env conc eval n causes)
  unfolding activation planning
  activation-Ends eval n causes h = then-Ends _ _ (next_cid-Quiet vs fl env conc (info n).id) λ cid.
      then-Ends _ _ (from_result-Quiet _) λ shape.
        bind-Ends _ _ (record { finishes = λ s. tt })
          λ planned. record {
            finishes =
                λ s. settle-Finished (info n).id cid shape planned _ ((h cid planned).finishes s);
          }

  interpret-Ends :
      (fuel : ℕ) (n : Node) (v : V) (causes : List ℕ)
      → Small fuel n
      → Ends (interpret vs fl env conc fuel n v causes)
  unfolding interpret
  interpret-Ends zero n v causes h = absurd (omega (arith, h.sized, ap length (walk-children n)))
  interpret-Ends (suc f) n v causes h =
      activation-Ends (evaluate vs fl env conc (interpret vs fl env conc f) f n v) n causes
        (λ cid planned.
          evaluate-Ends vs fl env conc order (interpret vs fl env conc f) f (interpret-Ends f) f n v
            cid planned h)

  -- An evaluation ends, by a value or an exception, with as much fuel as the flow has nodes, if the
  -- flow is static: no LOOP, no plan compiled at run time, and no `par` of an unknown kind. So calls
  -- of `interpret` nest no deeper than the flow is large. The environment runs branches one after
  -- another, each to its end.
  pub interpret_ends :
      (fuel : ℕ) (n : Node) (v : V) (causes : List ℕ) (s : State V W)
      → All (λ k. is_static k ≡ true) (walk n)
      → length (walk n) ≤ fuel
      → Finished (interpret vs fl env conc fuel n v causes s).0
  interpret_ends fuel n v causes s static sized =
      (interpret-Ends fuel n v causes (record { static = static; sized = sized })).finishes s
