-- ===== src/Staged/Admits.antt =====
-- The budget of an admitted plan, and what its admission checked (julep/staged.py).
use julep.Prelude.{
  ◌*◌, ℕ, ◌≡◌, refl, sym, Text, Bool, false, ℤ, pos, ◌≤ℤ◌, Option, some, List, [], ◌∷◌, All, In-All,
  return, >>=-eq-return, collect, arith,
}
use mathlib.Core.Path.{subst}
use julep.Json.{Json}
use julep.Kinds.{Shape, feedback}
use julep.Kinds.Join.{◌⊑◌}
use julep.Ir.{Node, node, info, walk}
use julep.Contracts.{ToolManifest}
use julep.Shapes.{closed_shape}
use julep.Shapes.Executed.{Executes}
use julep.Shapes.Bounded.{IsBounded, closed_shape-IsBounded}
use julep.Validate.Diagnostic.{
  Diagnostic, err, flag, blocking, blocking_parts, blocking-collect, blocking-flag, plan_too_rich,
  plan_dynamic_fanout, plan_budget,
}
use julep.Validate.Turns.Trace.Count.{HasBound}
use julep.Validate.Gate.{by_root, validate}
use julep.Validate.Gate.Accepts.{accepted_bounds}
use julep.Capabilities.{CapabilityManifest}
use julep.Staged.{own_cost, charge, estimate_cost}
use julep.Staged.Cost.{is_open, IsClosed, Shut, Spends}
use julep.Staged.Spend.{Spends-le}
use julep.Staged.Bind.{bind, bind_plan}
use julep.Staged.Bind.Same.{estimate_cost-bind, Executes-bind, Executes-walk}
use julep.Staged.Admission.{
  too_rich, is_each, over_budget, cost_limit, step_rules, check_plan, validate_plan, reject_if,
  admit_bound, admit_plan,
}

-- No node that is evaluated has a negative cost.
abbrev pub NonNegCosts : Node → Type 0
NonNegCosts n = (k : Node) → Executes n k → pos 0 ≤ℤ charge (own_cost (info k).ann)

module _ (registered : List Text) (reserved : Json → List Text)
    (incompatible : Option Json → Option Json → Bool) (unit : ℕ) where
  -- What the rules found on the plan that they saw.
  pub record Checked (n : Node) (parent : CapabilityManifest) : Type 0 where
    bounds : All HasBound (walk n)
    bounded : (k : Node) → Executes n k → IsBounded k
    no_each : All (λ k. is_each (info k).op ≡ false) (walk n)
    pub granted : All (λ k. blocking (step_rules parent (info k).id (info k).step) ≡ []) (walk n)
    fits : over_budget (cost_limit parent.budget) (estimate_cost unit n) ≡ false

  flags_off :
      (ns : List Node)
      → All
          (λ k. blocking (flag (is_each (info k).op) (err plan_dynamic_fanout (info k).id)) ≡ [])
          ns
      → All (λ k. is_each (info k).op ≡ false) ns
  flags_off [] h = tt
  flags_off (k ∷ ns) h =
      (blocking-flag _ (err plan_dynamic_fanout (info k).id) refl h.0, flags_off ns h.1)

  not_rich : (s : Shape) → too_rich s ≡ false → s ⊑ feedback
  not_rich s h = ground (arith, h)

  check_plan-Checked :
      (n : Node) (bound ds : List Diagnostic) (parent : CapabilityManifest)
      (m : Option ToolManifest)
      → check_plan registered reserved incompatible unit n bound parent m ≡ return ds
      → blocking ds ≡ []
      → Checked n parent
  check_plan-Checked n bound ds parent m h b =
      let (ordinary, e, h1) =
        >>=-eq-return (validate registered reserved incompatible n m by_root) _ h in
      let (s, e1, h2) = >>=-eq-return (closed_shape n) _ h1 in
      let (_, b1) = blocking_parts bound _ (subst (λ y. blocking y ≡ []) (sym (returned h2)) b) in
      let (b2, b3) = blocking_parts ordinary _ b1 in
      let (b4, b5) = blocking_parts (flag (too_rich s) (err plan_too_rich (info n).id)) _ b3 in
      let (b6, b7) =
        blocking_parts
          (collect (λ k. flag (is_each (info k).op) (err plan_dynamic_fanout (info k).id)) (walk n))
          _ b5 in
      let (b9, b8) =
        blocking_parts (collect (λ k. step_rules parent (info k).id (info k).step) (walk n)) _ b7 in
      record {
        bounds = accepted_bounds registered reserved incompatible n m by_root ordinary e b2;
        bounded = λ k x.
            closed_shape-IsBounded s e1
              (not_rich s (blocking-flag _ (err plan_too_rich (info n).id) refl b4)) x;
        no_each = flags_off (walk n) (
            blocking-collect (λ k. flag (is_each (info k).op) (err plan_dynamic_fanout (info k).id))
              (walk n) b6);
        granted = blocking-collect (λ k. step_rules parent (info k).id (info k).step) (walk n) b9;
        fits = blocking-flag _ (err plan_budget (info n).id) refl b8;
      }
    where
      returned : {a b : List Diagnostic} → return a ≡ return b → a ≡ b
      returned h = cc

  validate_plan-Checked :
      (n : Node) (parent : CapabilityManifest) (m : ToolManifest) (ds : List Diagnostic)
      → validate_plan registered reserved incompatible unit n parent (some m) ≡ return ds
      → blocking ds ≡ []
      → Checked (bind m n) parent
  unfolding validate_plan bind_plan
  validate_plan-Checked n parent m ds h b = check_plan-Checked (bind m n) _ ds parent _ h b

  shut_at : (n : Node) → IsBounded n → is_each (info n).op ≡ false → is_open (info n).op ≡ false
  shut_at n h k = ground (arith, h, k)

  IsClosed-at :
      (m : ToolManifest) (k : Node)
      → pos 0 ≤ℤ charge (own_cost (info k).ann)
      → HasBound (bind m k)
      → IsBounded (bind m k)
      → is_each (info (bind m k)).op ≡ false
      → IsClosed k
  unfolding bind
  IsClosed-at m (node i l r b p c d) h g q e = record {
    costed = h;
    bounded = g;
    shut = shut_at (bind m (node i l r b p c d)) q e;
  }

  Checked-Shut :
      (n : Node) (parent : CapabilityManifest) (m : ToolManifest)
      → Checked (bind m n) parent
      → NonNegCosts n
      → Shut n
  Checked-Shut n parent m q h k e =
      let x = Executes-bind m e in
      IsClosed-at m k (h k e) (In-All HasBound q.bounds (Executes-walk x)) (q.bounded _ x)
        (In-All (λ k. is_each (info k).op ≡ false) q.no_each (Executes-walk x))

  within :
      (limit est : ℤ) (s : ℕ) → over_budget (some limit) est ≡ false → pos s ≤ℤ est → pos s ≤ℤ limit
  within limit est s h k = ground (arith, h, k)

  pub accepted :
      (ds : List Diagnostic) (k n : Node)
      → reject_if registered reserved incompatible unit ds k ≡ return n
      → (ds ≡ []) × (k ≡ n)
  accepted [] k n h = (refl, cc)
  accepted (d ∷ ds) k n h = cc

  admitted :
      (k n : Node) (parent : CapabilityManifest) (m : ToolManifest)
      → admit_bound registered reserved incompatible unit k parent (some m) ≡ return n
      → (ds : List Diagnostic) × (validate_plan registered reserved incompatible unit n parent
            (some m)
          ≡ return ds)
        × (blocking ds ≡ [])
  admitted k n parent m h =
      let (ds, e, h1) =
        >>=-eq-return (validate_plan registered reserved incompatible unit k parent (some m)) _ h in
      let (clear, same) = accepted (blocking ds) k n h1 in
      (
        ds,
        subst
            (λ x. validate_plan registered reserved incompatible unit x parent (some m) ≡ return ds)
            same e,
        clear,
      )

  pub admit_plan-Checked :
      (plan n : Node) (parent : CapabilityManifest) (m : ToolManifest)
      → admit_plan registered reserved incompatible unit plan parent (some m) ≡ return n
      → Checked (bind m n) parent
  unfolding admit_plan bind_plan
  admit_plan-Checked plan n parent m h =
      let (ok, e, h1) =
        >>=-eq-return
          (reject_if registered reserved incompatible unit (blocking (bind_plan plan m).1)
            (bind m plan))
          (λ x. admit_bound registered reserved incompatible unit x parent (some m)) h in
      let (ds, e2, clear) = admitted ok n parent m h1 in
      validate_plan-Checked n parent m ds e2 clear

  -- No evaluation of a plan that was admitted against a frozen manifest charges more than the cost
  -- in its parent's budget, if no node that is evaluated has a negative cost, and no provider reports
  -- more than 2.0 for a reasoner whose cost is not annotated.
  pub admitted_spend :
      (plan n : Node) (parent : CapabilityManifest) (m : ToolManifest) (limit most : ℤ) (s : ℕ)
      → admit_plan registered reserved incompatible unit plan parent (some m) ≡ return n
      → cost_limit parent.budget ≡ some limit
      → NonNegCosts n
      → most ≤ℤ pos (2 * unit)
      → Spends unit most n s
      → pos s ≤ℤ limit
  admitted_spend plan n parent m limit most s h c b small u =
      let q = admit_plan-Checked plan n parent m h in
      let fits = subst (λ o. over_budget o (estimate_cost unit (bind m n)) ≡ false) c q.fits in
      within limit _ s
        (subst (λ x. over_budget (some limit) x ≡ false) (estimate_cost-bind unit m n) fits)
        (Spends-le unit most small u (Checked-Shut n parent m q b))
