-- ===== src/Interpreter/Eval/Settled.antt =====
-- `interpret` closes each activation that it opens.
use julep.Prelude.{◌∷◌, ℕ, zero, suc, ◌≡◌, refl, Text, Option, none, some, List, [], ◌++◌}
use julep.Kinds.{Shape}
use julep.Ir.{Node, info}
use julep.Projection.{
  did, did_event, append_stored, ProjectionEvent, ProjectionEmitter, plan_event, pending,
}
use julep.Projection.Paired.{Below, Extends, Paired, append-Below, close-Extends, cancel-Extends}
use julep.Projection.Pending.{Paired-pending}
use julep.Interpreter.Env.{
  Fault, Run, ended, ok, raised, out_of_fuel, State, Eff, ◌>>=◌, Values, Floats, Env, Concurrency,
  next_cid,
}
use julep.Interpreter.Order.{InOrder}
use julep.Interpreter.Eval.{
  recorded, record_failure, failure_message, settle, planning, activation, evaluate, interpret,
}
use julep.Interpreter.Eval.Keeps.{Finished, Keeps, Quiet, then-Keeps, from_result-Quiet}
use julep.Interpreter.Eval.Projected.{evaluate-Keeps}

module _ {V W F : Type 0} (vs : Values V) (fl : Floats F) (env : Env V W F)
    (conc : Concurrency V W) where
  pub next_cid-Quiet : (id : Text) → Quiet (next_cid {V = V} {W = W} id)
  unfolding next_cid
  next_cid-Quiet id = record { same = λ s. refl; ends = λ s. tt }

  -- The emitter after an activation was planned.
  abbrev opened : (id cid : Text) → List ℕ → Shape → ProjectionEmitter V → ProjectionEmitter V
  unfolding plan_event
  opened id cid causes shape e = (plan_event id cid causes shape e).1

  module _ (stores : (v : V) → vs.put v ≡ none) where
    settle-Extends :
        (id cid : Text) (causes : List ℕ) (shape : Shape) (e : ProjectionEmitter V)
        (x : Run V × State V W)
        → Below e
        → (Finished x.0 → Extends (opened id cid causes shape e) x.1.emitter)
        → Finished (settle vs fl env conc id cid shape e.ids x).0
        → Extends e (settle vs fl env conc id cid shape e.ids x).1.emitter
    unfolding opened settle plan_event did_event
    settle-Extends id cid causes shape e (ended (ok v), s) b h k = stored (vs.put v) (stores v)
      where
        event : ℕ → ProjectionEvent V
        event i = record {
          event_id = i;
          type = did;
          node = id;
          cid = cid;
          causes = e.ids ∷ [];
          shape = some shape;
          value = some v;
          error = none;
        }

        stored :
            (o : Option Fault)
            → o ≡ none
            → Extends e (recorded vs fl env conc v (append_stored o s.emitter event) s).1.emitter
        stored none q =
            close-Extends e _ s.emitter _ refl refl refl (h tt) _ (event s.emitter.ids) refl refl
              refl refl refl refl refl
        stored (some f) q = cc
    settle-Extends id cid causes shape e (ended (raised f), s) b h k =
        failed-Extends (failure_message vs fl env conc f)
      where
        failed-Extends :
            (m : Option Text) → Extends e (record_failure vs fl env conc m id cid e.ids s).emitter
        failed-Extends none = cancel-Extends e _ s.emitter _ refl refl refl (h tt) b
        failed-Extends (some m) =
            close-Extends e _ s.emitter _ refl refl refl (h tt) _ _ refl refl refl refl refl refl
              refl
    settle-Extends id cid causes shape e (out_of_fuel, s) b h k = absurd k

    -- What is planned and then evaluated is settled.
    planned-Keeps :
        (id cid : Text) (causes : List ℕ) (shape : Shape) (eval : (planned : ℕ) → Eff V W V)
        → ((planned : ℕ) → Keeps (eval planned))
        → Keeps (
            planning vs fl env conc id cid causes shape >>= λ planned s.
            settle vs fl env conc id cid shape planned (eval planned s))
    unfolding planning ◌>>=◌ plan_event opened
    planned-Keeps id cid causes shape eval h = record {
      grows = λ s f b.
          settle-Extends id cid causes shape s.emitter _ b
            (λ k. (h s.emitter.ids).grows _ k (append-Below s.emitter _ refl b)) f;
    }

    activation-Keeps :
        (eval : (cid : Text) → (planned : ℕ) → Eff V W V) (n : Node) (causes : List ℕ)
        → ((cid : Text) (planned : ℕ) → Keeps (eval cid planned))
        → Keeps (activation vs fl env conc eval n causes)
    unfolding activation
    activation-Keeps eval n causes h = then-Keeps _ _ (next_cid-Quiet (info n).id) λ cid.
        then-Keeps _ _ (from_result-Quiet _)
          λ shape. planned-Keeps (info n).id cid causes shape (eval cid) (h cid)

    module _ (order : InOrder conc) where
      interpret-Keeps :
          (fuel : ℕ) (n : Node) (v : V) (causes : List ℕ)
          → Keeps (interpret vs fl env conc fuel n v causes)
      unfolding interpret
      interpret-Keeps zero n v causes = record { grows = λ s e. absurd e }
      interpret-Keeps (suc f) n v causes =
          activation-Keeps (evaluate vs fl env conc (interpret vs fl env conc f) f n v) n causes (
            evaluate-Keeps vs fl env conc order (interpret vs fl env conc f) (interpret-Keeps f) f n
              v)

      -- However an evaluation ends, by a value or by any exception, the projection was extended by
      -- activations that are closed and nested: each PLANNED event is followed by the DID or FAILED
      -- event of its activation, with those of the activations inside in between. The events that were
      -- there are kept. The store takes every value, the event ids so far are below the counter, and the environment runs branches
      -- one after another, each to its end.
      pub interpret_paired :
          (fuel : ℕ) (n : Node) (v : V) (causes : List ℕ) (s : State V W)
          → Below s.emitter
          → Finished (interpret vs fl env conc fuel n v causes s).0
          → (t : List (ProjectionEvent V)) × ((interpret vs fl env conc fuel n v causes
                s).1.emitter.events
              ≡ s.emitter.events ++ t)
            × Paired t
      interpret_paired fuel n v causes s b f =
          let x = (interpret-Keeps fuel n v causes).grows s f b in (x.added, x.grown, x.paired)

      -- If nothing was pending before an evaluation, nothing is after it, however it ends. The event ids
      -- so far are below the counter, the store takes every value, and the environment runs branches one after another.
      pub interpret_not_pending :
          (fuel : ℕ) (n : Node) (v : V) (causes : List ℕ) (s : State V W)
          → Below s.emitter
          → Finished (interpret vs fl env conc fuel n v causes s).0
          → pending s.emitter.events ≡ []
          → pending (interpret vs fl env conc fuel n v causes s).1.emitter.events ≡ []
      interpret_not_pending fuel n v causes s b f h =
          let (t, grown, paired) = interpret_paired fuel n v causes s b f in
          rw grown (Paired-pending s.emitter.events t paired h)
