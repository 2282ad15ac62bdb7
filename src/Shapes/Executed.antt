-- ===== src/Shapes/Executed.antt =====
-- Which nodes the interpreter evaluates for a node (julep/execution/interpreter.py, `_eval`), up to
-- the boundaries that a shape does not look behind: a plan, an agent, a session loop.
use julep.Prelude.{
  ◌≡◌, Bool, true, false, ◌&&◌, List, [], ◌++◌, All, All-append, All-append_left, All-append_right,
  In,
}
use julep.Kinds.{Op}
use julep.Ir.{
  Node, node, Slot, absent, present, CaseSlot, no_cases, switch, slot_nodes, case_nodes,
  case_slot_nodes, children,
}

-- The branches of an `alt`.
abbrev pub alternatives : CaseSlot → (two default : List Node) → List Node
alternatives no_cases two default = two
alternatives (switch cs) two default = case_nodes cs ++ default

abbrev pub inner_at : Op → (two body alternatives : List Node) → List Node
inner_at Op.seq two body alts = two
inner_at Op.par two body alts = two
inner_at Op.each two body alts = body
inner_at Op.iter_up_to two body alts = body
inner_at Op.alt two body alts = alts
inner_at _ two body alts = []

abbrev pub inner : Node → List Node
inner (node i l r b p c d) =
    inner_at i.op (slot_nodes l ++ slot_nodes r) (slot_nodes b)
      (alternatives c (slot_nodes l ++ slot_nodes r) (slot_nodes d))

-- `m` is evaluated when `n` is.
pub data Executes : Node → Node → Type 0 where
  self : (n : Node) → Executes n n
  inside : (n k m : Node) → In k (inner n) → Executes k m → Executes n m

-- A node whose required children are present: the others raise in the analyses.
abbrev pub is_present : Slot → Bool
is_present absent = false
is_present (present n) = true

abbrev pub branches_at : Op → (left right body : Bool) → CaseSlot → Bool
branches_at Op.seq l r b c = l && r
branches_at Op.par l r b c = l && r
branches_at Op.alt l r b no_cases = l && r
branches_at Op.iter_up_to l r b c = b
branches_at _ l r b c = true

abbrev pub HasBranches : Node → Type 0
HasBranches (node i l r b p c d) =
    branches_at i.op (is_present l) (is_present r) (is_present b) c ≡ true

-- What is evaluated is found among the children.
pub All-inner {ℓ} : (P : Node → Type ℓ) (n : Node) → All P (children n) → All P (inner n)
unfolding children
All-inner P (node i l r b p c d) h =
    let hl = All-append_left P (slot_nodes l) _ h in
    let h1 = All-append_right P (slot_nodes l) _ h in
    let hr = All-append_left P (slot_nodes r) _ h1 in
    let h2 = All-append_right P (slot_nodes r) _ h1 in
    let hb = All-append_left P (slot_nodes b) _ h2 in
    let h3 = All-append_right P (slot_nodes p) _ (All-append_right P (slot_nodes b) _ h2) in
    let hc = All-append_left P (case_slot_nodes c) _ h3 in
    let hd = All-append_right P (case_slot_nodes c) _ h3 in
    go i.op (All-append P (slot_nodes l) (slot_nodes r) hl hr) hb c hc hd
  where
    pick :
        (c : CaseSlot)
        → All P (slot_nodes l ++ slot_nodes r)
        → All P (case_slot_nodes c)
        → All P (slot_nodes d)
        → All P (alternatives c (slot_nodes l ++ slot_nodes r) (slot_nodes d))
    pick no_cases two hc hd = two
    pick (switch cs) two hc hd = All-append P (case_nodes cs) (slot_nodes d) hc hd

    go :
        (op : Op)
        → All P (slot_nodes l ++ slot_nodes r)
        → All P (slot_nodes b)
        → (c : CaseSlot) → All P (case_slot_nodes c)
        → All P (slot_nodes d)
        → All P (
            inner_at op
              (slot_nodes l ++ slot_nodes r)
              (slot_nodes b)
              (alternatives c (slot_nodes l ++ slot_nodes r) (slot_nodes d)))
    go Op.prim two hb c hc hd = tt
    go Op.seq two hb c hc hd = two
    go Op.par two hb c hc hd = two
    go Op.each two hb c hc hd = hb
    go Op.iter_up_to two hb c hc hd = hb
    go Op.alt two hb c hc hd = pick c two hc hd
    go _ two hb c hc hd = tt
