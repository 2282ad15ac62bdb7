-- ===== src/Derived/Within.antt =====
-- Where a node stands in a flow, as the scan of julep/derived.py descends: of a `par` only the two
-- branches.
use julep.Prelude.{
  Bool, true, false, Bool-cases, inl, inr, List, ◌++◌, In, here, there, In-append_left,
  In-append_right, In-collect, In-append_cases,
}
use julep.Ir.{Node, node, slot_nodes, children, walk}
use julep.Ir.Walk.{walk-children}
use julep.Derived.{is_par}

abbrev parts_at : Bool → (two all : List Node) → List Node
parts_at true two all = two
parts_at false two all = all

-- The parts of a node: the two branches of a `par`, and the children of any other.
abbrev pub parts : Node → List Node
parts (node i l r b p c d) =
    parts_at (is_par i.op) (slot_nodes l ++ slot_nodes r) (children (node i l r b p c d))

-- `k` stands in `n`, at any depth.
pub data Within : Node → Node → Type 0 where
  self : (n : Node) → Within n n
  down : (n c k : Node) → In c (parts n) → Within c k → Within n k

pub Within-trans : {a b c : Node} → Within a b → Within b c → Within a c
Within-trans (self a) v = v
Within-trans (down a x b e u) v = down a x _ e (Within-trans u v)

pub parts-children : (n c : Node) → In c (parts n) → In c (children n)
unfolding children
parts-children (node i l r b p c d) k e = elim (Bool-cases (is_par i.op)) [
  | inl h ↦
      (let e' : In k (slot_nodes l ++ slot_nodes r) = rw h at e in
        In-append_cases (slot_nodes l) (slot_nodes r) (λ x. In-append_left (slot_nodes l) _ x)
          (λ x. In-append_right (slot_nodes l) _ (In-append_left (slot_nodes r) _ x)) e')
  | inr h ↦ rw h at e
]

pub Within-walk : {n k : Node} → Within n k → In k (walk n)
Within-walk (self n) = rw (walk-children n) here
Within-walk (down n c k e w) =
    rw (walk-children n) (there (In-collect walk (parts-children n c e) (Within-walk w)))
