-- ===== src/Staged/Grants.antt =====
-- The tools that an admitted plan calls (julep/staged.py).
use julep.Prelude.{
  ℕ, ◌≡◌, refl, Text, Bool, true, false, not, ◌&&◌, Option, some, List, [], In-All, is_some, get,
  return, arith,
}
use mathlib.Core.Path.{subst}
use julep.Json.{Json}
use julep.Ir.{CallStep, call, toolref_key, Node, node, info}
use julep.Contracts.{ToolManifest}
use julep.Shapes.Executed.{Executes}
use julep.Validate.Diagnostic.{err, blocking, blocking-flag, plan_tool_ungranted}
use julep.Capabilities.{CapabilityManifest}
use julep.Staged.Bind.{Binding, bound_to, unbound, ambiguous, binding, pinned_call, bind_step, bind}
use julep.Staged.Bind.Same.{Executes-bind, Executes-walk}
use julep.Staged.Admission.{step_rules, admit_plan}
use julep.Staged.Admits.{admit_plan-Checked}

module _ (registered : List Text) (reserved : Json → List Text)
    (incompatible : Option Json → Option Json → Bool) (unit : ℕ) where
  granted_call :
      (parent : CapabilityManifest) (m : ToolManifest) (id : Text) (s : CallStep)
      → parent.has_tools ≡ true
      → blocking (step_rules parent id (bind_step m (some (call s)))) ≡ []
      → is_some (get (toolref_key s.tool) parent.tools) ≡ true
  unfolding step_rules bind_step
  granted_call parent m id s t h =
      let off = blocking-flag _ (err plan_tool_ungranted id) refl h in
      passes parent.has_tools _ t (
        subst
          (λ tool.
            (parent.has_tools && not (is_some (get (toolref_key tool) parent.tools))) ≡ false)
          (tool_kept s (binding m s)) off)
    where
      tool_kept : (s : CallStep) (b : Binding) → (pinned_call s b).tool ≡ s.tool
      tool_kept s (bound_to e) = refl
      tool_kept s unbound = refl
      tool_kept s ambiguous = refl

      passes : (a b : Bool) → a ≡ true → (a && not b) ≡ false → b ≡ true
      passes a b h k = ground (arith, h, k)

  step_at :
      (m : ToolManifest) (parent : CapabilityManifest) (k : Node) (s : CallStep)
      → (info k).step ≡ some (call s)
      → blocking (step_rules parent (info (bind m k)).id (info (bind m k)).step) ≡ []
      → blocking (step_rules parent (info k).id (bind_step m (some (call s)))) ≡ []
  unfolding bind
  step_at m parent (node i l r b p c d) s e h =
      subst (λ x. blocking (step_rules parent i.id (bind_step m x)) ≡ []) e h

  -- Every call that a plan admitted against a frozen manifest makes is to a tool that the parent was
  -- granted, if the parent has a list of tools at all.
  pub admitted_grants :
      (plan n k : Node) (parent : CapabilityManifest) (m : ToolManifest) (s : CallStep)
      → admit_plan registered reserved incompatible unit plan parent (some m) ≡ return n
      → parent.has_tools ≡ true
      → Executes n k
      → (info k).step ≡ some (call s)
      → is_some (get (toolref_key s.tool) parent.tools) ≡ true
  admitted_grants plan n k parent m s h t x e =
      let q = admit_plan-Checked registered reserved incompatible unit plan n parent m h in
      let visited = Executes-walk (Executes-bind m x) in
      granted_call parent m (info k).id s t (
        step_at m parent k s e (
          In-All (λ y. blocking (step_rules parent (info y).id (info y).step) ≡ []) q.granted
            visited))
