-- ===== src/Capabilities/Approval/Guarded.antt =====
-- Sequences of leaves in which each call that needs approval comes after a human gate.
use julep.Prelude.{
  ◌≡◌, refl, Bool, true, false, not, ◌&&◌, ◌||◌, and-eq_true, and_intro, Option, List, [], ◌∷◌,
  ◌++◌, any, arith,
}
use julep.Ir.{Info}
use julep.Contracts.{ToolManifest}
use julep.Capabilities.{CapabilityManifest}
use julep.Capabilities.Approval.{is_human_gate, approval_required}
use julep.Capabilities.Approval.Runs.{Interleaves, done, from_left, from_right}

abbrev pub gate : Info → Bool
gate i = is_human_gate i.step

-- Whether a human gate is among the leaves.
abbrev pub has_gate : List Info → Bool
has_gate t = any gate t

pub has_gate_interleave :
    {s t u : List Info} → Interleaves s t u → has_gate u ≡ (has_gate s || has_gate t)
has_gate_interleave done = refl
has_gate_interleave (from_left e i) = ground (arith, has_gate_interleave i)
has_gate_interleave (from_right e i) = ground (arith, has_gate_interleave i)

module _ (m : ToolManifest) (caps : Option CapabilityManifest) where
  -- Up to the first gate, no leaf needs approval; `gated` is whether a gate came before.
  abbrev pub guarded : Bool → List Info → Bool
  guarded true t = true
  guarded false [] = true
  guarded false (i ∷ t) = not (approval_required m caps i.step) && guarded (gate i) t

  pub guarded_mono : (g h : Bool) (t : List Info) → guarded g t ≡ true → guarded (g || h) t ≡ true
  guarded_mono true h t k = refl
  guarded_mono false true t k = refl
  guarded_mono false false t k = k

  pub guarded_append :
      (g : Bool) (s t : List Info)
      → guarded g s ≡ true
      → guarded (g || has_gate s) t ≡ true
      → guarded g (s ++ t) ≡ true
  guarded_append true s t h k = refl
  guarded_append false [] t h k = k
  guarded_append false (i ∷ s) t h k =
      let (hn, hg) = and-eq_true (not (approval_required m caps i.step)) (guarded (gate i) s) h in
      and_intro _ _ hn (guarded_append (gate i) s t hg k)

  pub guarded_interleave :
      (g : Bool) {s t u : List Info}
      → guarded g s ≡ true
      → guarded g t ≡ true
      → Interleaves s t u
      → guarded g u ≡ true
  guarded_interleave true h k i = refl
  guarded_interleave false h k done = refl
  guarded_interleave false {s = f ∷ s} h k (from_left e i) =
      let (hn, hg) = and-eq_true (not (approval_required m caps e.step)) (guarded (gate e) s) h in
      and_intro _ _ hn (guarded_interleave (gate e) hg (guarded_mono false (gate e) _ k) i)
  guarded_interleave false {t = f ∷ t} h k (from_right e i) =
      let (kn, kg) = and-eq_true (not (approval_required m caps e.step)) (guarded (gate e) t) k in
      and_intro _ _ kn (guarded_interleave (gate e) (guarded_mono false (gate e) _ h) kg i)
