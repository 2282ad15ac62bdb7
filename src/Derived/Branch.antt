-- ===== src/Derived/Branch.antt =====
-- What `_branch_admission` of julep/derived.py lets through.
use julep.Prelude.{
  ◌≡◌, refl, ap, ◌∙◌, Text, get, true, Option, none, some, List, [], In-All, collect, All-map,
  return, return_injective, >>=-eq-return, arith,
}
use julep.Kinds.{feedback, shape_leq}
use julep.Ir.{CallStep, Step, call, think, sub, Node, walk, info}
use julep.Contracts.{FrozenTool, ToolManifest}
use julep.Shapes.{surface_shape}
use julep.Validate.Diagnostic.{
  Diagnostic, warn, flag, blocking, blocking_parts, blocking-collect, is_prim, race_rich_branch,
}
use julep.Derived.Within.{Within, Within-walk}
use julep.Derived.{race_safe, tool_admission, call_admission, step_admission, branch_admission}

-- A step that may run in a branch that is cancelled: no sub-flow, and a call only if the manifest
-- has an asserted contract for it, which is read-only or idempotent.
abbrev pub IsRaceSafe : ToolManifest → Option Step → Type 0
IsRaceSafe m none = Unit
IsRaceSafe m (some (think s)) = Unit
IsRaceSafe m (some (sub s)) = ⊥
IsRaceSafe m (some (call s)) =
    (hash : Text) × (t : FrozenTool) × (s.frozen_hash ≡ some hash)
    × (get hash m ≡ some t)
    × (t.asserted ≡ true)
    × (race_safe t.contract ≡ true)

module _ (m : ToolManifest) where
  tool-safe :
      (id : Text) (t : FrozenTool)
      → blocking (tool_admission id (some t)) ≡ []
      → (t.asserted ≡ true) × (race_safe t.contract ≡ true)
  unfolding blocking
  tool-safe id t h = ground arith

  found-safe :
      (id hash : Text) (o : Option FrozenTool)
      → get hash m ≡ o
      → blocking (tool_admission id o) ≡ []
      → (t : FrozenTool) × (get hash m ≡ some t)
        × (t.asserted ≡ true)
        × (race_safe t.contract ≡ true)
  unfolding blocking
  found-safe id hash none e h = cc
  found-safe id hash (some t) e h = let (a, r) = tool-safe id t h in (t, e, a, r)

  call-safe :
      (id : Text) (s : CallStep) (o : Option Text)
      → s.frozen_hash ≡ o
      → blocking (call_admission m id o) ≡ []
      → IsRaceSafe m (some (call s))
  unfolding blocking get
  call-safe id s none e h = cc
  call-safe id s (some hash) e h =
      let (t, g, a, r) = found-safe id hash (get hash m) refl h in (hash, t, e, g, a, r)

  step-safe :
      (id : Text) (step : Option Step)
      → blocking (step_admission m id step) ≡ []
      → IsRaceSafe m step
  unfolding step_admission blocking
  step-safe id none h = tt
  step-safe id (some (think s)) h = tt
  step-safe id (some (sub s)) h = cc
  step-safe id (some (call s)) h = call-safe id s s.frozen_hash refl h

  -- Every leaf in `n` is safe.
  abbrev pub SafeLeaf : Node → Type 0
  SafeLeaf n = is_prim (info n).op ≡ true → IsRaceSafe m (info n).step

  abbrev pub SafeIn : Node → Type 0
  SafeIn n = (k : Node) → Within n k → SafeLeaf k

  pub admission-SafeIn :
      (n : Node) (ds : List Diagnostic)
      → branch_admission m n ≡ return ds
      → blocking ds ≡ []
      → SafeIn n
  unfolding branch_admission
  admission-SafeIn n ds h b k w p =
      let (s, e, f) = >>=-eq-return (surface_shape n) _ h in
      let steps = collect (λ k. step_admission m (info k).id (info k).step) (walk n) in
      let rich = flag (shape_leq feedback s) (warn race_rich_branch (info n).id) in
      let (b1, b2) = blocking_parts steps rich (ap blocking (return_injective f) ∙ b) in
      In-All (λ k. IsRaceSafe m (info k).step)
        (All-map _ _ (λ k h. step-safe (info k).id (info k).step h) (walk n)
          (blocking-collect (λ k. step_admission m (info k).id (info k).step) (walk n) b1))
        (Within-walk w)
