-- ===== src/Capabilities/Approval/Sound.antt =====
-- `check_approval_gates` of julep/capabilities.py, against the completed evaluations of a flow.
use julep.Prelude.{
  ◌≡◌, refl, Bool, true, false, ◌||◌, Bool-cases, and_intro, inl, inr, ℕ, Option, List, [], ◌∷◌,
  ◌++◌, append-eq_nil, All, All-append, In-All, arith,
}
use julep.Kinds.{Op}
use julep.Ir.{
  Info, Node, node, Slot, absent, present, CaseSlot, no_cases, switch, Cases, end, case, info, left,
  right, body, plan, slot_nodes, case_nodes,
}
use julep.Shapes.Executed.{inner, All-inner}
use julep.Contracts.{ToolManifest}
use julep.Validate.Diagnostic.{Diagnostic}
use julep.Capabilities.{CapabilityManifest}
use julep.Capabilities.Approval.{
  approval_below, emit_if_ungated, always_gates, approvals, approvals_slot, approvals_case_slot,
  approvals_cases, check_approval_gates,
}
use julep.Capabilities.Approval.Runs.{
  Runs, Rounds, Items, leaf, silent, left_out, sequence, choice, rounds, staged, branches, items,
  stop, again, no_items, one_more,
}
use julep.Capabilities.Approval.Guarded.{
  gate, has_gate, guarded, guarded_mono, guarded_append, guarded_interleave,
}
use julep.Capabilities.Approval.Gates.{
  not-left_out, IsCovered, IsCovered-children, In-left, In-right, In-body, In-plan, child,
  Gating-has_gate,
}

guarded_nil :
    (m : ToolManifest) (caps : Option CapabilityManifest) (g : Bool) → guarded m caps g [] ≡ true
guarded_nil m caps true = refl
guarded_nil m caps false = refl

module _ (m : ToolManifest) (caps : Option CapabilityManifest) (g : Bool) where
  abbrev Passes : Node → Type 0
  Passes n = approvals m caps g n ≡ []

  slot-Passes : (s : Slot) → approvals_slot m caps g s ≡ [] → All Passes (slot_nodes s)
  unfolding approvals
  slot-Passes absent h = tt
  slot-Passes (present n) h = (h, tt)

  cases-Passes : (cs : Cases) → approvals_cases m caps g cs ≡ [] → All Passes (case_nodes cs)
  unfolding approvals
  cases-Passes end h = tt
  cases-Passes (case k n cs) h = let (a, b) = append-eq_nil _ _ h in (a, cases-Passes cs b)

  pub alt-Passes : (n : Node) → (info n).op ≡ Op.alt → Passes n → All Passes (inner n)
  unfolding approvals
  alt-Passes (node i l r b p no_cases d) o h =
      let two : approvals_slot m caps g l ++ approvals_slot m caps g r ≡ [] = rw o at h in
      let (hl, hr) = append-eq_nil _ _ two in
      rw o (All-append Passes (slot_nodes l) (slot_nodes r) (slot-Passes l hl) (slot-Passes r hr))
  alt-Passes (node i l r b p (switch cs) d) o h =
      let both : approvals_cases m caps g cs ++ approvals_slot m caps g d ≡ [] = rw o at h in
      let (hc, hd) = append-eq_nil _ _ both in
      rw o
        (All-append Passes (case_nodes cs) (slot_nodes d) (cases-Passes cs hc) (slot-Passes d hd))

  pub seq-Passes :
      (n x y : Node)
      → (info n).op ≡ Op.seq
      → left n ≡ present x
      → right n ≡ present y
      → Passes n
      → Passes x × (approvals m caps (g || always_gates x) y ≡ [])
  unfolding approvals
  seq-Passes (node i l r b p c d) x y o el er h =
      let two : approvals m caps g x ++ approvals m caps (g || always_gates x) y ≡ [] =
        rw (o, el, er) at h in
      append-eq_nil _ _ two

  pub par-Passes :
      (n x y : Node)
      → (info n).op ≡ Op.par
      → left n ≡ present x
      → right n ≡ present y
      → Passes n
      → Passes x × Passes y
  unfolding approvals
  par-Passes (node i l r b p c d) x y o el er h =
      let all : (approvals m caps g x ++ approvals m caps g y)
            ++ (approvals_slot m caps g b ++ approvals_slot m caps g p)
          ≡ [] =
        rw (o, el, er) at h in
      append-eq_nil _ _ (append-eq_nil _ _ all).0

  -- A node whose body or plan is walked.
  abbrev walks_inside : Op → Bool
  walks_inside Op.each = true
  walks_inside Op.iter_up_to = true
  walks_inside Op.eval_plan = true
  walks_inside _ = false

  inside-Passes :
      (i : Info) (l r b p d : Slot) (c : CaseSlot)
      → walks_inside i.op ≡ true
      → Passes (node i l r b p c d)
      → (approvals_slot m caps g b ≡ []) × (approvals_slot m caps g p ≡ [])
  unfolding approvals
  inside-Passes i l r b p d c o h = go i.op _ o h
    where
      go :
          (op : Op) (two : List Diagnostic)
          → walks_inside op ≡ true
          → approval_below op two
              (approvals_slot m caps g b)
              (approvals_slot m caps g p)
              (approvals_case_slot m caps g c)
              (approvals_slot m caps g d)
              c
              (emit_if_ungated m caps i g)
            ≡ []
          → (approvals_slot m caps g b ≡ []) × (approvals_slot m caps g p ≡ [])
      go Op.each two o h = append-eq_nil _ _ (append-eq_nil two _ h).1
      go Op.iter_up_to two o h = append-eq_nil _ _ (append-eq_nil two _ h).1
      go Op.eval_plan two o h = append-eq_nil _ _ (append-eq_nil two _ h).1
      go _ two o h = cc

  pub body-Passes :
      (n x : Node) → walks_inside (info n).op ≡ true → body n ≡ present x → Passes n → Passes x
  unfolding approvals
  body-Passes (node i l r b p c d) x o e h = rw e at (inside-Passes i l r b p d c o h).0

  pub plan-Passes :
      (n x : Node) → walks_inside (info n).op ≡ true → plan n ≡ present x → Passes n → Passes x
  unfolding approvals
  plan-Passes (node i l r b p c d) x o e h = rw e at (inside-Passes i l r b p d c o h).1

  pub leaf-guarded :
      (n : Node) → (info n).op ≡ Op.prim → Passes n → guarded m caps g (info n ∷ []) ≡ true
  unfolding approvals
  leaf-guarded (node i l r b p c d) o h = one i g (rw o at h)
    where
      one :
          (i : Info) (h : Bool) → emit_if_ungated m caps i h ≡ [] → guarded m caps h (i ∷ []) ≡ true
      one i true h = refl
      one i false h = and_intro _ _ (ground arith) (guarded_nil m caps (gate i))

module _ (m : ToolManifest) (caps : Option CapabilityManifest) where
  -- The right part of a sequence is guarded by the gates of the left part, if it has any.
  after :
      (g : Bool) (x : Node) (s t : List Info)
      → (always_gates x ≡ true → has_gate s ≡ true)
      → guarded m caps (g || always_gates x) t ≡ true
      → guarded m caps (g || has_gate s) t ≡ true
  after true x s t f h = refl
  after false x s t f h = elim (Bool-cases (always_gates x)) [
    | inl e ↦ rw (f e) refl
    | inr e ↦ guarded_mono m caps false (has_gate s) t (rw e at h)
  ]

  mutual
    Runs-guarded :
        {n : Node} {t : List Info} (g : Bool)
        → IsCovered n
        → Passes m caps g n
        → Runs n t
        → guarded m caps g t ≡ true
    Runs-guarded g w h (leaf n o) = leaf-guarded m caps g n o h
    Runs-guarded g w h (silent n o) = guarded_nil m caps g
    Runs-guarded g w h (left_out n t e) = absurd (not-left_out n w e)
    Runs-guarded g w h (sequence n x y s u o el er rx ry) =
        let (hx, hy) = seq-Passes m caps g n x y o el er h in
        let wx = child n x w (In-left n x el) in
        guarded_append m caps g s u (Runs-guarded g wx hx rx) (
          after g x s u (λ a. Gating-has_gate wx a rx)
            (Runs-guarded (g || always_gates x) (child n y w (In-right n y er)) hy ry))
    Runs-guarded g w h (choice n k t o e r) =
        Runs-guarded g (In-All IsCovered (All-inner IsCovered n (IsCovered-children n w)) e)
          (In-All (Passes m caps g) (alt-Passes m caps g n o h) e) r
    Runs-guarded g w h (rounds n x k t o e r) =
        Rounds-guarded g (child n x w (In-body n x e)) (body-Passes m caps g n x (rw o refl) e h) r
    Runs-guarded g w h (staged n x t o e r) =
        Runs-guarded g (child n x w (In-plan n x e)) (plan-Passes m caps g n x (rw o refl) e h) r
    Runs-guarded g w h (branches n x y s u t o q el er rx ry i) =
        let (hx, hy) = par-Passes m caps g n x y o el er h in
        guarded_interleave m caps g (Runs-guarded g (child n x w (In-left n x el)) hx rx)
          (Runs-guarded g (child n y w (In-right n y er)) hy ry) i
    Runs-guarded g w h (items n x t o e r) =
        Items-guarded g (child n x w (In-body n x e)) (body-Passes m caps g n x (rw o refl) e h) r

    Rounds-guarded :
        {x : Node} {k : ℕ} {t : List Info} (g : Bool)
        → IsCovered x
        → Passes m caps g x
        → Rounds x k t
        → guarded m caps g t ≡ true
    Rounds-guarded g w h (stop x) = guarded_nil m caps g
    Rounds-guarded g w h (again x k s t r rest) =
        guarded_append m caps g s t (Runs-guarded g w h r)
          (guarded_mono m caps g (has_gate s) t (Rounds-guarded g w h rest))

    Items-guarded :
        {x : Node} {t : List Info} (g : Bool)
        → IsCovered x
        → Passes m caps g x
        → Items x t
        → guarded m caps g t ≡ true
    Items-guarded g w h (no_items x) = guarded_nil m caps g
    Items-guarded g w h (one_more x s t u r rest i) =
        guarded_interleave m caps g (Runs-guarded g w h r) (Items-guarded g w h rest) i

-- If the check reports nothing on a flow whose human gates are leaves, and in which there is no LOOP,
-- no race, hedge or quorum, and no plan that is compiled at run time, then in every completed
-- evaluation each call of the flow that needs approval comes after a human gate. What an agent calls
-- by itself is left out.
pub gated_runs :
    (m : ToolManifest) (caps : Option CapabilityManifest) (flow : Node) (t : List Info)
    → check_approval_gates m caps flow ≡ []
    → IsCovered flow
    → Runs flow t
    → guarded m caps false t ≡ true
unfolding check_approval_gates
gated_runs m caps flow t h w r = Runs-guarded m caps false w h r
