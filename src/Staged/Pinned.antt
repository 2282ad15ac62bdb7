-- ===== src/Staged/Pinned.antt =====
-- The hashes of the calls of an admitted plan (julep/staged.py).
use julep.Prelude.{
  ◌≡◌, ℕ, refl, ◌∙◌, Text, text_eq, text_eq_iff, get, Bool, Option, none, some, List, [], ◌∷◌, All,
  All-append, All-append_left, All-append_right, In, here, there, Bool-cases, inl, inr, return,
  >>=-eq-return,
}
use mathlib.Core.Path.{subst}
use julep.Json.{Json}
use julep.Ir.{
  CallStep, Step, call, think, sub, toolref_key, Info, Node, node, Slot, absent, present, CaseSlot,
  no_cases, switch, Cases, end, case, info, walk, walk_slot, walk_case_slot, walk_cases,
}
use julep.Contracts.{FrozenTool, ToolManifest}
use julep.Validate.Diagnostic.{Code, err, blocking, blocking-collect}
use julep.Capabilities.{CapabilityManifest}
use julep.Staged.Bind.{
  entries_of, Binding, bound_to, unbound, ambiguous, pinned_to, only_match, binding, pinned_call,
  bind_step, bind, bind_slot, bind_case_slot, bind_cases, binding_diag, binding_diags, bind_plan,
}
use julep.Staged.Admission.{reject_if, validate_plan, admit_bound, admit_plan}
use julep.Staged.Admits.{accepted}

-- An entry of the manifest.
abbrev pub IsEntry : ToolManifest → FrozenTool → Type 0
IsEntry m e = (h : Text) × In (h, e) m

blocking_one : (c : Code) (id : Text) → blocking (err c id ∷ []) ≡ [] → ⊥
unfolding blocking
blocking_one c id h = cc

-- A call step carries the hash of an entry for the tool that it names.
abbrev pub IsPinned : ToolManifest → Option Step → Type 0
IsPinned m (some (call s)) =
    (e : FrozenTool) × IsEntry m e
    × (s.frozen_hash ≡ some e.execution_hash)
    × (toolref_key e.ref ≡ toolref_key s.tool)
IsPinned m _ = Unit

-- What a binding to an entry promises.
abbrev IsFor : ToolManifest → Text → Binding → Type 0
IsFor m key (bound_to e) = IsEntry m e × (toolref_key e.ref ≡ key)
IsFor m key _ = Unit

IsEntry-more :
    (key h : Text) (f : FrozenTool) (m : ToolManifest) (es : List FrozenTool)
    → All (λ e. IsEntry m e × (toolref_key e.ref ≡ key)) es
    → All (λ e. IsEntry ((h, f) ∷ m) e × (toolref_key e.ref ≡ key)) es
IsEntry-more key h f m [] a = tt
IsEntry-more key h f m (e ∷ es) a =
    let ((i, x), q) = a.0 in (((i, there x), q), IsEntry-more key h f m es a.1)

All-entries :
    (key : Text) (m : ToolManifest)
    → All (λ e. IsEntry m e × (toolref_key e.ref ≡ key)) (entries_of key m)
unfolding entries_of
All-entries key [] = tt
All-entries key ((h, e) ∷ m) = elim (Bool-cases (text_eq (toolref_key e.ref) key)) [
  | inl q ↦
      rw (entries_of, q)
        (
          ((h, here), (text_eq_iff _ _).0 q),
          IsEntry-more key h e m (entries_of key m) (All-entries key m),
        )
  | inr q ↦ rw (entries_of, q) (IsEntry-more key h e m (entries_of key m) (All-entries key m))
]

get-IsEntry : (k : Text) (m : ToolManifest) (e : FrozenTool) → get k m ≡ some e → IsEntry m e
unfolding get
get-IsEntry k [] e h = cc
get-IsEntry k ((j, f) ∷ m) e h = elim (Bool-cases (text_eq j k)) [
  | inl q ↦ (j, subst (λ x. In (j, x) ((j, f) ∷ m)) (same (rw (get, q) at h)) here)
  | inr q ↦ let (i, x) = get-IsEntry k m e (rw (get, q) at h) in (i, there x)
]
  where
    same : some f ≡ some e → f ≡ e
    same h = cc

binding-IsFor : (m : ToolManifest) (s : CallStep) → IsFor m (toolref_key s.tool) (binding m s)
unfolding binding
binding-IsFor m s = by_hash s.frozen_hash refl
  where
    matched :
        (key : Text) (es : List FrozenTool)
        → All (λ e. IsEntry m e × (toolref_key e.ref ≡ key)) es
        → IsFor m key (only_match es)
    matched key [] a = tt
    matched key (e ∷ []) a = a.0
    matched key (e ∷ f ∷ es) a = tt

    pinned : (key k : Text) (o : Option FrozenTool) → get k m ≡ o → IsFor m key (pinned_to key o)
    pinned key k none g = tt
    pinned key k (some e) g = elim (Bool-cases (text_eq (toolref_key e.ref) key)) [
      | inl q ↦ rw q (get-IsEntry k m e g, (text_eq_iff _ _).0 q)
      | inr q ↦ rw q tt
    ]

    by_hash : (h : Option Text) → s.frozen_hash ≡ h → IsFor m (toolref_key s.tool) (binding m s)
    by_hash none e =
        rw (binding, e) (matched (toolref_key s.tool) _ (All-entries (toolref_key s.tool) m))
    by_hash (some k) e = rw (binding, e) (pinned (toolref_key s.tool) k (get k m) refl)

step-IsPinned :
    (m : ToolManifest) (i : Info)
    → blocking (binding_diags m i) ≡ []
    → IsPinned m (bind_step m i.step)
unfolding binding_diags bind_step
step-IsPinned m i h = by_step i.step refl
  where
    kept :
        (s : CallStep) (b : Binding)
        → IsFor m (toolref_key s.tool) b
        → blocking (binding_diag i.id b) ≡ []
        → IsPinned m (some (call (pinned_call s b)))
    kept s (bound_to e) f h = (e, f.0, refl, f.1)
    kept s unbound f h = absurd (blocking_one _ i.id h)
    kept s ambiguous f h = absurd (blocking_one _ i.id h)

    by_step : (o : Option Step) → i.step ≡ o → IsPinned m (bind_step m o)
    by_step none e = tt
    by_step (some (think s)) e = tt
    by_step (some (sub s)) e = tt
    by_step (some (call s)) e =
        kept s (binding m s) (binding-IsFor m s) (rw (binding_diags, e) at h)

module _ (m : ToolManifest) (P Q : Node → Type 0) (f : (n : Node) → P n → Q (bind m n)) where
  mutual
    unfolding walk bind

    All-bind : (n : Node) → All P (walk n) → All Q (walk (bind m n))
    All-bind (node i l r b p c d) h =
        let h1 = All-append_right P (walk_slot l) _ h.1 in
        let h2 = All-append_right P (walk_slot r) _ h1 in
        let h3 = All-append_right P (walk_slot b) _ h2 in
        let h4 = All-append_right P (walk_slot p) _ h3 in
        (
          f (node i l r b p c d) h.0,
          All-append Q _ _ (slot-bind l (All-append_left P (walk_slot l) _ h.1)) (
              All-append Q _ _ (slot-bind r (All-append_left P (walk_slot r) _ h1)) (
                All-append Q _ _ (slot-bind b (All-append_left P (walk_slot b) _ h2)) (
                  All-append Q _ _ (slot-bind p (All-append_left P (walk_slot p) _ h3)) (
                    All-append Q _ _ (case_slot-bind c (All-append_left P (walk_case_slot c) _ h4))
                      (slot-bind d (All-append_right P (walk_case_slot c) _ h4)))))),
        )

    slot-bind : (s : Slot) → All P (walk_slot s) → All Q (walk_slot (bind_slot m s))
    slot-bind absent h = tt
    slot-bind (present n) h = All-bind n h

    case_slot-bind :
        (c : CaseSlot) → All P (walk_case_slot c) → All Q (walk_case_slot (bind_case_slot m c))
    case_slot-bind no_cases h = tt
    case_slot-bind (switch cs) h = cases-bind cs h

    cases-bind : (cs : Cases) → All P (walk_cases cs) → All Q (walk_cases (bind_cases m cs))
    cases-bind end h = tt
    cases-bind (case k n cs) h =
        All-append Q _ _ (All-bind n (All-append_left P (walk n) _ h))
          (cases-bind cs (All-append_right P (walk n) _ h))

node-IsPinned :
    (m : ToolManifest) (n : Node)
    → blocking (binding_diags m (info n)) ≡ []
    → IsPinned m (info (bind m n)).step
unfolding bind
node-IsPinned m (node i l r b p c d) h = step-IsPinned m i h

module _ (registered : List Text) (reserved : Json → List Text)
    (incompatible : Option Json → Option Json → Bool) (unit : ℕ) where
  same_plan :
      (k n : Node) (parent : CapabilityManifest) (m : Option ToolManifest)
      → admit_bound registered reserved incompatible unit k parent m ≡ return n
      → k ≡ n
  same_plan k n parent m h =
      let (ds, e, h1) =
        >>=-eq-return (validate_plan registered reserved incompatible unit k parent m) _ h in
      (accepted registered reserved incompatible unit (blocking ds) k n h1).1

  -- Every call of a plan that was admitted against a frozen manifest carries the hash of an entry of
  -- that manifest, and the entry is for the tool that the call names.
  pub admitted_pins :
      (plan n : Node) (parent : CapabilityManifest) (m : ToolManifest)
      → admit_plan registered reserved incompatible unit plan parent (some m) ≡ return n
      → All (λ k. IsPinned m (info k).step) (walk n)
  unfolding admit_plan bind_plan
  admitted_pins plan n parent m h =
      let (ok, e, h1) =
        >>=-eq-return
          (reject_if registered reserved incompatible unit (blocking (bind_plan plan m).1)
            (bind m plan))
          (λ x. admit_bound registered reserved incompatible unit x parent (some m)) h in
      let (clear, same) =
        accepted registered reserved incompatible unit (blocking (bind_plan plan m).1) (bind m plan)
          ok e in
      subst (λ x. All (λ k. IsPinned m (info k).step) (walk x))
        (same ∙ same_plan ok n parent (some m) h1)
        (All-bind m (λ k. blocking (binding_diags m (info k)) ≡ []) (λ k. IsPinned m (info k).step)
          (node-IsPinned m) plan
          (blocking-collect (λ k. binding_diags m (info k)) (walk plan) clear))
