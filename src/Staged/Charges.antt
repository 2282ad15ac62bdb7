-- ===== src/Staged/Charges.antt =====
-- What one node adds to the charge of an evaluation, against `estimate_cost` of julep/staged.py.
use julep.Prelude.{
  ℕ, suc, ◌+◌, ◌*◌, ◌≤◌, ◌≡◌, true, ℤ, pos, negsuc, pos_part, ◌≤ℤ◌, ◌+ℤ◌, ◌*ℤ◌, +ℤ_parts, max_ℤ,
  or_else, Option, List, [], ◌∷◌, ◌++◌, In, here, there, arith,
}
use julep.Kinds.{Op}
use julep.Ir.{
  Info, Node, Slot, absent, present, CaseSlot, no_cases, switch, Cases, end, case, slot_nodes,
  case_nodes,
}
use julep.Shapes.Executed.{alternatives, is_present, branches_at}
use julep.Staged.{
  own_cost, charge, max_of, or_one, default_of, estimate_at, estimate_cost, estimate_slot,
  estimate_case_slot, estimate_cases,
}
use julep.Staged.Cost.{is_leaf, is_pair, own, leaf_charge}

max_of-upper : (x : ℤ) (xs : List ℤ) → In x xs → x ≤ℤ max_of xs
unfolding max_of
max_of-upper x [] m = elim m [ ]
max_of-upper x (y ∷ []) here = omega arith
max_of-upper x (y ∷ z ∷ xs) here = ground arith
max_of-upper x (y ∷ z ∷ xs) (there m) = ground (arith, max_of-upper x (z ∷ xs) m)
max_of-upper x (y ∷ []) (there m) = elim m [ ]

pub times_zero : (e : ℤ) → pos 0 ≤ℤ pos 0 *ℤ e
unfolding ◌*ℤ◌
times_zero e = ground arith

pub times_step :
    (k s t : ℕ) (e : ℤ)
    → pos 0 ≤ℤ e
    → pos s ≤ℤ e
    → pos t ≤ℤ pos k *ℤ e
    → pos (s + t) ≤ℤ pos (suc k) *ℤ e
unfolding ◌*ℤ◌
times_step k s t (pos e) h u v = ground (arith, h, u, v)
times_step k s t (negsuc e) h u v = absurd (omega arith)

mul_mono : (k b e : ℕ) → k ≤ b → k * e ≤ b * e
mul_mono k b e h = grind arith

parts_le : (z : ℤ) → pos 0 ≤ℤ z → pos (pos_part z) ≤ℤ z
parts_le z h = ground (arith, h)

-- Fewer rounds of a cost that is not negative cost less.
times-mono : (k : ℕ) (b e : ℤ) → k ≤ pos_part b → pos 0 ≤ℤ b → pos 0 ≤ℤ e → pos k *ℤ e ≤ℤ b *ℤ e
unfolding ◌*ℤ◌
times-mono k (pos b) (pos e) h p q = ground (arith, mul_mono k b e h)
times-mono k (negsuc b) e h p q = absurd (omega arith)
times-mono k (pos b) (negsuc e) h p q = absurd (omega arith)

module _ (unit : ℕ) where
  pub leaf-le :
      (op : Op) (i : Info) (v : Option ℤ) (l r b : List ℤ) (c : Option (List ℤ)) (d : List ℤ)
      → is_leaf op ≡ true
      → or_else v (pos 0) ≤ℤ pos (2 * unit)
      → pos 0 ≤ℤ charge (own_cost i.ann)
      → pos (leaf_charge unit op i v)
        ≤ℤ estimate_at unit op (own_cost i.ann) (default_of unit i.step) i.bound l r b c d
  unfolding estimate_at
  leaf-le Op.prim i v l r b c d h u o = ground (arith, o, u)
  leaf-le Op.ident i v l r b c d h u o = ground (arith, o)
  leaf-le Op.arr i v l r b c d h u o = ground (arith, o)
  leaf-le _ i v l r b c d h u o = cc

  pub both-le :
      (op : Op) (i : Info) (x y : ℤ) (b : List ℤ) (c : Option (List ℤ)) (d : List ℤ) (s t : ℕ)
      → is_pair op ≡ true
      → pos 0 ≤ℤ charge (own_cost i.ann)
      → pos s ≤ℤ x
      → pos t ≤ℤ y
      → pos (own i + (s + t))
        ≤ℤ estimate_at unit op
            (own_cost i.ann)
            (default_of unit i.step)
            i.bound
            (x ∷ [])
            (y ∷ [])
            b
            c
            d
  unfolding estimate_at
  both-le Op.seq i x y b c d s t h o u v =
      omega (arith, parts_le _ o, u, v, +ℤ_parts x y, +ℤ_parts (charge (own_cost i.ann)) (x +ℤ y))
  both-le Op.par i x y b c d s t h o u v =
      omega (arith, parts_le _ o, u, v, +ℤ_parts x y, +ℤ_parts (charge (own_cost i.ann)) (x +ℤ y))
  both-le _ i x y b c d s t h o u v = cc

  pub repeat-le :
      (i : Info) (x : ℤ) (l r : List ℤ) (c : Option (List ℤ)) (d : List ℤ) (k s : ℕ)
      → pos 0 ≤ℤ charge (own_cost i.ann)
      → pos 0 ≤ℤ or_else i.bound (pos 0)
      → pos 0 ≤ℤ x
      → k ≤ pos_part (or_else i.bound (pos 0))
      → pos s ≤ℤ pos k *ℤ x
      → pos (own i + s)
        ≤ℤ estimate_at unit Op.iter_up_to
            (own_cost i.ann)
            (default_of unit i.step)
            i.bound
            l
            r
            (x ∷ [])
            c
            d
  unfolding estimate_at
  repeat-le i x l r c d k s o n e h u = omega (
    arith,
    parts_le _ o,
    u,
    rounds_le i.bound n h,
    +ℤ_parts (charge (own_cost i.ann)) (or_one i.bound *ℤ x),
  )
    where
      or_one-NonNeg : (b : Option ℤ) → pos 0 ≤ℤ or_else b (pos 0) → pos 0 ≤ℤ or_one b
      or_one-NonNeg b h = ground (arith, h)

      or_one-upper : (b : Option ℤ) → k ≤ pos_part (or_else b (pos 0)) → k ≤ pos_part (or_one b)
      or_one-upper b h = ground (arith, h)

      rounds_le :
          (b : Option ℤ)
          → pos 0 ≤ℤ or_else b (pos 0)
          → k ≤ pos_part (or_else b (pos 0))
          → pos k *ℤ x ≤ℤ or_one b *ℤ x
      rounds_le b n h = times-mono k (or_one b) x (or_one-upper b h) (or_one-NonNeg b n) e

  In-slot :
      (k : Node) (s : Slot) → In k (slot_nodes s) → In (estimate_cost unit k) (estimate_slot unit s)
  unfolding estimate_cost
  In-slot k absent m = elim m [ ]
  In-slot k (present n) here = here
  In-slot k (present n) (there m) = elim m [ ]

  In-cases :
      (k : Node) (cs : Cases) (d : Slot)
      → In k (case_nodes cs ++ slot_nodes d)
      → In (estimate_cost unit k) (estimate_cases unit cs ++ estimate_slot unit d)
  unfolding estimate_cost
  In-cases k end d m = In-slot k d m
  In-cases k (case key n cs) d here = here
  In-cases k (case key n cs) d (there m) = there (In-cases k cs d m)

  pub choice-le :
      (i : Info) (l r b d : Slot) (c : CaseSlot) (k : Node) (s : ℕ)
      → branches_at Op.alt (is_present l) (is_present r) (is_present b) c ≡ true
      → In k (alternatives c (slot_nodes l ++ slot_nodes r) (slot_nodes d))
      → pos 0 ≤ℤ charge (own_cost i.ann)
      → pos s ≤ℤ estimate_cost unit k
      → pos (own i + s)
        ≤ℤ estimate_at unit Op.alt
            (own_cost i.ann)
            (default_of unit i.step)
            i.bound
            (estimate_slot unit l)
            (estimate_slot unit r)
            (estimate_slot unit b)
            (estimate_case_slot unit c)
            (estimate_slot unit d)
  unfolding estimate_at estimate_cost
  choice-le i l r b d (switch cs) k s h m o u = omega (
    arith,
    parts_le _ o,
    u,
    max_of-upper _ _ (In-cases k cs d m),
    +ℤ_parts (charge (own_cost i.ann)) (max_of (estimate_cases unit cs ++ estimate_slot unit d)),
  )
  choice-le i absent r b d no_cases k s h m o u = cc
  choice-le i (present x) absent b d no_cases k s h m o u = cc
  choice-le i (present x) (present y) b d no_cases k s h here o u = ground (
    arith,
    parts_le _ o,
    u,
    +ℤ_parts (charge (own_cost i.ann)) (max_ℤ (estimate_cost unit x) (estimate_cost unit y)),
  )
  choice-le i (present x) (present y) b d no_cases k s h (there here) o u = ground (
    arith,
    parts_le _ o,
    u,
    +ℤ_parts (charge (own_cost i.ann)) (max_ℤ (estimate_cost unit x) (estimate_cost unit y)),
  )
  choice-le i (present x) (present y) b d no_cases k s h (there (there m)) o u = elim m [ ]
