-- ===== src/Interpreter/Eval/Ends.antt =====
-- The evaluation of a static flow ends.
use julep.Prelude.{
  if_either, ℕ, zero, suc, ◌≡◌, refl, Text, true, false, inl, inr, any, ℤ, pos_part, Option, ◌⊎◌,
  none, some, List, [], ◌∷◌, All, In, map, arith,
}
use julep.Kinds.{Op}
use julep.Ir.{
  Merge, case_nodes, case_slot_nodes, MergeKind, Info, Node, node, Slot, absent, present, CaseSlot,
  no_cases, switch, Cases, info, race_like,
}
use julep.Derived.{is_par}
use julep.Validate.Calls.{reads_whole_session}
use julep.Interpreter.Env.{State, Eff, ◌>>=◌, done, Values, Floats, Pure, Env, Concurrency}
use julep.Interpreter.Order.{InOrder}
use julep.Interpreter.Static.{
  known, static_at, Small, child-Small, root_static, left-In, right-In, body-In, plan-In, cases-In,
  default-In, get_case-In,
}
use julep.Interpreter.Static.Branches.{joined-Small, raced-Small}
use julep.Interpreter.Parts.{merges_all, slot, kind_of, get_case}
use julep.Interpreter.Prims.{Res}
use julep.Interpreter.Prims.Quiet.{eval_prim-Quiet}
use julep.Interpreter.Branches.{
  in_turn, branch, eval_par, gather_waves, all_items, eval_items, eval_each, take_branch, chosen,
  eval_alt, rounds,
}
use julep.Interpreter.Eval.{eval_op, evaluate}
use julep.Interpreter.Eval.Keeps.{Finished, done-Quiet, throw-Quiet, lift-Quiet, required-Quiet}
use julep.Interpreter.Eval.Rules.{
  Ends, Quiet-Ends, bind-Ends, then-Ends, lift-Ends, from_result-Ends, slot-Ends, if-Ends,
  bind-done,
}
use julep.Interpreter.Eval.Plain.{quiet_rules, reduce-Quiet, converged-Quiet, convergence-Quiet}

joins_all :
    (m : Option Merge) → known m ≡ true → race_like (kind_of m) ≡ false → merges_all m ≡ true
joins_all m k h = ground arith

of_slot : (d : Slot) (x : Node) → slot d ≡ some x → d ≡ present x
of_slot d x e = ground arith

of_found :
    (o : Option Node) (d : Slot) (x : Node)
    → elim o [ none ↦ slot d | some n ↦ some n ] ≡ some x
    → (o ≡ some x) ⊎ (d ≡ present x)
of_found none d x e = inr (of_slot d x e)
of_found (some n) d x e = inl e

module _ {V W F : Type 0} (vs : Values V) (fl : Floats F) (env : Env V W F) (conc : Concurrency V W)
    (order : InOrder conc) (rec : Node → V → List ℕ → Eff V W (Res V)) (size : ℕ)
    (ends : (n : Node) (v : V) (causes : List ℕ) → Small size n → Ends (rec n v causes)) where
  all_end :
      (ms : List (Eff V W (Res V)))
      → All (λ m. Ends m) ms
      → All (λ m. (s : State V W) → Finished (m s).0) ms
  all_end [] h = tt
  all_end (m ∷ ms) h = (h.0.finishes, all_end ms h.1)

  branches-End :
      (v : V) (planned : ℕ) (bs : List Node)
      → All (λ b. Small size b) bs
      → All (λ m. Ends m) (map (branch vs fl env conc rec v planned) bs)
  branches-End v planned [] h = tt
  branches-End v planned (b ∷ bs) h = (ends b v (planned ∷ []) h.0, branches-End v planned bs h.1)

  items-End :
      (planned : ℕ) (b : Node) (xs : List V)
      → Small size b
      → All (λ m. Ends m) (map (λ x. branch vs fl env conc rec x planned b) xs)
  items-End planned b [] h = tt
  items-End planned b (x ∷ xs) h = (ends b x (planned ∷ []) h, items-End planned b xs h)

  gather-Ends : (ms : List (Eff V W (Res V))) → All (λ m. Ends m) ms → Ends (conc.gather ms)
  gather-Ends ms h = record { finishes = order.gather_finishes ms (all_end ms h) }

  race-Ends :
      (kind : MergeKind) (m : ℤ) (hedge_ms : Option ℤ) (ms : List (Eff V W (Res V)))
      → All (λ b. Ends b) ms
      → Ends (conc.race_first kind m hedge_ms ms)
  race-Ends kind m hedge_ms ms h = record {
    finishes = order.race_finishes kind m hedge_ms ms (all_end ms h);
  }

  in_turn-Ends :
      (ms : List (Eff V W (Res V))) → All (λ m. Ends m) ms → Ends (in_turn vs fl env conc rec ms)
  unfolding in_turn
  in_turn-Ends [] h = Quiet-Ends _ (done-Quiet _)
  in_turn-Ends (m ∷ ms) h =
      bind-Ends m _ h.0 λ r. bind-Ends _ _ (in_turn-Ends ms h.1) λ rs. Quiet-Ends _ (done-Quiet _)

  gather_items-Ends :
      (b : Node) (planned : ℕ) (xss : List (List V))
      → Small size b
      → Ends (gather_waves vs fl env conc rec (all_items vs fl env conc rec b planned xss))
  unfolding gather_waves
  gather_items-Ends b planned [] h = Quiet-Ends _ (done-Quiet _)
  gather_items-Ends b planned (xs ∷ xss) h =
      bind-Ends _ _ (gather-Ends _ (items-End planned b xs h))
        λ rs. bind-Ends _ _ (gather_items-Ends b planned xss h) λ rest. Quiet-Ends _ (done-Quiet _)

  eval_items-Ends :
      (n b : Node) (items : Option (List V)) (planned : ℕ)
      → Small size b
      → Ends (eval_items vs fl env conc rec n b items planned)
  unfolding eval_items
  eval_items-Ends n b none planned h = Quiet-Ends _ (throw-Quiet V _)
  eval_items-Ends n b (some items) planned h =
      bind-Ends _ _
        (if-Ends (reads_whole_session b) _ _ (λ e. in_turn-Ends _ (items-End planned b items h))
          (λ e. then-Ends _ _ (lift-Quiet _) λ xss. gather_items-Ends b planned xss h))
        λ results. Quiet-Ends _ (reduce-Quiet env _ _)

  take_branch-Ends :
      (k : Option Node) (v : V) (planned : ℕ)
      → ((x : Node) → k ≡ some x → Small size x)
      → Ends (take_branch vs fl env conc rec k v planned)
  take_branch-Ends none v planned h = Quiet-Ends _ (throw-Quiet V _)
  take_branch-Ends (some k) v planned h =
      bind-Ends _ _ (ends k v (planned ∷ []) (h k refl)) λ res. Quiet-Ends _ (done-Quiet _)

  rounds-Ends :
      (k : ℕ) (conv : Option (Pure V)) (b : Node) (cur : V) (last_event : ℕ)
      → Small size b
      → Ends (rounds vs fl env conc rec k conv b cur last_event)
  unfolding rounds
  rounds-Ends zero conv b cur last_event h = Quiet-Ends _ (done-Quiet _)
  rounds-Ends (suc k) conv b cur last_event h =
      bind-Ends _ _ (ends b cur (last_event ∷ []) h) λ res.
        then-Ends _ _ (converged-Quiet vs fl env conc rec conv res.0) λ stop.
          if-Ends stop _ _ (λ e. Quiet-Ends _ (done-Quiet _))
            (λ e. rounds-Ends k conv b res.0 res.1 h)

  chosen-Small :
      (key : Option Text) (cs : Cases) (d : Slot)
      → ((x : Node) → In x (case_nodes cs) → Small size x)
      → ((x : Node) → d ≡ present x → Small size x)
      → (x : Node) → chosen vs fl env conc rec key cs d ≡ some x
      → Small size x
  unfolding chosen
  chosen-Small none cs d hc hd x e = hd x (of_slot d x e)
  chosen-Small (some k) cs d hc hd x e = elim (of_found (get_case k cs) d x e) [
    | inl h ↦ hc x (get_case-In k cs x h)
    | inr h ↦ hd x h
  ]

  eval_par-Ends :
      (n : Node) (v : V) (planned : ℕ)
      → is_par (info n).op ≡ true
      → known (info n).merge ≡ true
      → Small (suc size) n
      → Ends (eval_par vs fl env conc rec n v planned)
  unfolding eval_par
  eval_par-Ends n v planned par k small =
      if-Ends (race_like (kind_of (info n).merge)) _ _
        (λ races. from_result-Ends _ _ λ bs e.
          bind-Ends _ _
            (race-Ends _ _ _ _ (branches-End v planned bs (raced-Small n par races small bs e)))
            λ won. then-Ends _ _ (lift-Quiet _) λ out. Quiet-Ends _ (reduce-Quiet env _ out))
        (λ joins. lift-Ends _ _ λ bs e.
          let sub = joined-Small n par (joins_all (info n).merge k joins) small bs e in
          bind-Ends _ _
            (if-Ends (any reads_whole_session bs) _ _
              (λ d. in_turn-Ends _ (branches-End v planned bs sub))
              (λ d. gather-Ends _ (branches-End v planned bs sub)))
            λ results. Quiet-Ends _ (reduce-Quiet env _ _))

  eval_alt-Ends :
      (i : Info) (l r : Slot) (c : CaseSlot) (d : Slot) (v : V) (planned : ℕ)
      → ((x : Node) → l ≡ present x → Small size x)
      → ((x : Node) → r ≡ present x → Small size x)
      → ((x : Node) → In x (case_slot_nodes c) → Small size x)
      → ((x : Node) → d ≡ present x → Small size x)
      → Ends (eval_alt vs fl env conc rec i l r c d v planned)
  unfolding eval_alt
  eval_alt-Ends i l r (switch cs) d v planned hl hr hc hd =
      then-Ends _ _ (required-Quiet _) λ select. then-Ends _ _ (lift-Quiet _) λ fn.
        then-Ends _ _ (lift-Quiet _) λ out.
          then-Ends _ _ (lift-Quiet _)
            λ key. take_branch-Ends _ v planned (λ x e. chosen-Small key cs d hc hd x e)
  eval_alt-Ends i l r no_cases d v planned hl hr hc hd = then-Ends _ _ (required-Quiet _) λ name.
      slot-Ends l _ λ x ex. slot-Ends r _ λ y ey. then-Ends _ _ (lift-Quiet _) λ pred.
        then-Ends _ _ (lift-Quiet _) λ out. then-Ends _ _ (lift-Quiet _) λ test.
          bind-Ends _ _
            (ends _ v (planned ∷ []) (if_either (Small size) test x y (hl x ex) (hr y ey)))
            λ res. Quiet-Ends _ (done-Quiet _)

  -- A plan that is there is evaluated.
  baked-Ends :
      (x : Node) (v : V) (planned : ℕ)
      → Small size x
      → Ends (done x >>= λ plan. branch vs fl env conc rec v planned plan >>= λ res. done res.0)
  baked-Ends x v planned h =
      bind-done x _ (bind-Ends _ _ (ends x v (planned ∷ []) h) λ res. Quiet-Ends _ (done-Quiet _))

  eval_op-Ends :
      (op : Op) (fuel : ℕ) (i : Info) (l r b p : Slot) (c : CaseSlot) (d : Slot) (v : V)
      (cid : Text) (planned : ℕ)
      → i.op ≡ op
      → static_at op p i.merge ≡ true
      → Small (suc size) (node i l r b p c d)
      → Ends (eval_op vs fl env conc rec op fuel i l r b p c d v cid planned)
  unfolding eval_op eval_each
  eval_op-Ends Op.ident fuel i l r b p c d v cid planned e st sm = Quiet-Ends _ (done-Quiet v)
  eval_op-Ends Op.arr fuel i l r b p c d v cid planned e st sm = Quiet-Ends _ (search quiet_rules)
  eval_op-Ends Op.prim fuel i l r b p c d v cid planned e st sm =
      Quiet-Ends _ (eval_prim-Quiet vs fl env i.step _ v cid)
  eval_op-Ends Op.seq fuel i l r b p c d v cid planned e st sm = slot-Ends l _ λ x ex.
      slot-Ends r _ λ y ey.
        bind-Ends _ _ (ends x v (planned ∷ []) (child-Small _ x sm (left-In i l r b p c d x ex)))
          λ first.
            bind-Ends _ _
              (ends y first.0 (first.1 ∷ []) (child-Small _ y sm (right-In i l r b p c d y ey)))
              λ second. Quiet-Ends _ (done-Quiet _)
  eval_op-Ends Op.par fuel i l r b p c d v cid planned e st sm =
      eval_par-Ends (node i l r b p c d) v planned (rw e refl) st sm
  eval_op-Ends Op.each fuel i l r b p c d v cid planned e st sm = slot-Ends b _ λ x ex.
      eval_items-Ends (node i l r b p c d) x (vs.items v) planned
        (child-Small _ x sm (body-In i l r b p c d x ex))
  eval_op-Ends Op.alt fuel i l r b p c d v cid planned e st sm =
      eval_alt-Ends i l r c d v planned (λ x q. child-Small _ x sm (left-In i l r b p c d x q))
        (λ x q. child-Small _ x sm (right-In i l r b p c d x q))
        (λ x q. child-Small _ x sm (cases-In i l r b p c d x q))
        (λ x q. child-Small _ x sm (default-In i l r b p c d x q))
  eval_op-Ends Op.iter_up_to fuel i l r b p c d v cid planned e st sm = slot-Ends b _ λ x ex.
      then-Ends _ _ (required-Quiet _) λ bound.
        then-Ends _ _ (convergence-Quiet vs fl env conc rec i.pure) λ conv.
          rounds-Ends (pos_part bound) conv x v planned
            (child-Small _ x sm (body-In i l r b p c d x ex))
  eval_op-Ends Op.loop fuel i l r b p c d v cid planned e st sm = cc
  eval_op-Ends Op.eval_plan fuel i l r b absent c d v cid planned e st sm = cc
  eval_op-Ends Op.eval_plan fuel i l r b (present x) c d v cid planned e st sm =
      baked-Ends x v planned (child-Small _ x sm (plan-In i l r b (present x) c d x refl))
  eval_op-Ends Op.app fuel i l r b p c d v cid planned e st sm = Quiet-Ends _ (search quiet_rules)

  pub evaluate-Ends :
      (fuel : ℕ) (n : Node) (v : V) (cid : Text) (planned : ℕ)
      → Small (suc size) n
      → Ends (evaluate vs fl env conc rec fuel n v cid planned)
  unfolding evaluate
  evaluate-Ends fuel (node i l r b p c d) v cid planned sm =
      eval_op-Ends i.op fuel i l r b p c d v cid planned refl (root_static sm) sm
