-- ===== src/Staged/Spend.antt =====
-- What an evaluation of a plan charges, against `estimate_cost` of julep/staged.py.
use julep.Prelude.{
  ◌*◌, ℤ, arith, ℕ, ◌≡◌, sym, true, false, pos, ◌≤ℤ◌, ◌*ℤ◌, List, [], ◌∷◌, ◌++◌, In, here, there,
}
use mathlib.Core.Path.{subst}
use julep.Kinds.{Op}
use julep.Ir.{Node, slot_nodes}
use julep.Shapes.Executed.{alternatives, inner_at, self, inside, is_present, branches_at}
use julep.Validate.Turns.Trace.Count.{BoundAt}
use julep.Staged.{estimate_cost, estimate_slot, estimate_case_slot}
use julep.Staged.Cost.{
  is_pair, is_open, Spends, leaf, both, choice, rounds, unbounded, stopped, Repeats, stop, again,
  Shut, estimate-NonNeg,
}
use julep.Staged.Charges.{times_zero, times_step, leaf-le, both-le, repeat-le, choice-le}

module _ (unit : ℕ) (most : ℤ) (small : most ≤ℤ pos (2 * unit)) where
  pair-evaluates :
      (op : Op) (l r b alts : List Node) (k : Node)
      → is_pair op ≡ true
      → In k (l ++ r)
      → In k (inner_at op (l ++ r) b alts)
  pair-evaluates Op.seq l r b alts k h m = m
  pair-evaluates Op.par l r b alts k h m = m
  pair-evaluates _ l r b alts k h m = cc

  shut_open : (op : Op) → is_open op ≡ true → is_open op ≡ false → ⊥
  shut_open op h k = cc

  mutual
    unfolding estimate_cost

    pub Spends-le :
        {n : Node} {s : ℕ} → Spends unit most n s → Shut n → pos s ≤ℤ estimate_cost unit n
    Spends-le (leaf i l r b p d c v h u) q =
        leaf-le unit i.op i v _ _ _ _ _ h (omega (arith, u, small)) (q _ (self _)).costed
    Spends-le (both i x y b p d c s t h u v) q =
        both-le unit i.op i _ _ _ _ _ s t h (q _ (self _)).costed
          (Spends-le u
            (λ m e. q m (inside _ x m (pair-evaluates i.op (x ∷ []) (y ∷ []) _ _ x h here) e)))
          (Spends-le v (λ m e.
            q m (inside _ y m (pair-evaluates i.op (x ∷ []) (y ∷ []) _ _ y h (there here)) e)))
    Spends-le (choice i l r b p d c k s h g m u) q =
        let a =
          subst
            (λ op. In k (
              inner_at op (slot_nodes l ++ slot_nodes r) (slot_nodes b)
                (alternatives c (slot_nodes l ++ slot_nodes r) (slot_nodes d))))
            h m in
        rw h (
          choice-le unit i l r b d c k s
            (subst (λ op. branches_at op (is_present l) (is_present r) (is_present b) c ≡ true) h g)
            a (q _ (self _)).costed (Spends-le u (λ w e. q w (inside _ k w m e))))
    Spends-le (rounds i l r p d c x k s h g u) q =
        let deep : Shut x = λ w e. q w (
          inside _ x w
            (subst
              (λ op. In x (
                inner_at op (slot_nodes l ++ slot_nodes r) (x ∷ [])
                  (alternatives c (slot_nodes l ++ slot_nodes r) (slot_nodes d))))
              (sym h) here)
            e) in
        rw h (
          repeat-le unit i _ (estimate_slot unit l) (estimate_slot unit r)
            (estimate_case_slot unit c) (estimate_slot unit d) k s (q _ (self _)).costed
            (subst (λ op. BoundAt op i.bound) h (q _ (self _)).bounded)
            (estimate-NonNeg unit x deep) g (Repeats-le u deep))
    Spends-le (stopped n s t u v) q = omega (arith, Spends-le u q, v)
    Spends-le (unbounded i l r b p d c s h) q = absurd (shut_open i.op h (q _ (self _)).shut)

    Repeats-le :
        {x : Node} {k s : ℕ}
        → Repeats unit most x k s
        → Shut x
        → pos s ≤ℤ pos k *ℤ estimate_cost unit x
    Repeats-le (stop x) q = times_zero (estimate_cost unit x)
    Repeats-le (again x k s t u v) q =
        times_step k s t _ (estimate-NonNeg unit x q) (Spends-le u q) (Repeats-le v q)
