-- ===== src/Derived.antt =====
-- julep/derived.py: the race family and the other combinators that lower to the core operators, and
-- the admission of what races. A combinator takes its branches as one sequence.
pub mod Combinators
pub mod Flatten
pub mod Tree
pub mod Branches
pub mod Enough
pub mod Scan
pub mod Within
pub mod Branch
pub mod Safe
use julep.Prelude.{
  ℕ, zero, suc, length, Text, Bool, true, false, not, ◌&&◌, ◌||◌, get, Option, none, some, List, [],
  ◌∷◌, ◌++◌, collect, if◌then◌else◌, Result, return, raise, assertion_error, gather, ◌>>=◌,
}
use julep.Kinds.{Op, Shape, feedback, shape_leq, is_read, race_safe_idempotency}
use julep.Ir.{
  children, CallStep, Step, call, think, sub, Merge, MergeKind, race_like, same_kind, Info, Node,
  node, Slot, absent, present, CaseSlot, no_cases, switch, Cases, end, case, info, walk,
}
use julep.Contracts.{FrozenTool, ToolManifest, ToolContract}
use julep.Shapes.{surface_shape}
use julep.Validate.Diagnostic.{
  Diagnostic, err, warn, flag, race_sub, race_unfrozen, race_no_manifest, race_unasserted,
  race_unsafe, race_rich_branch,
}

abbrev pub is_par : Op → Bool
is_par Op.par = true
is_par _ = false

abbrev pub merges_as : MergeKind → Option Merge → Bool
merges_as k none = false
merges_as k (some m) = same_kind m.kind k

-- `n.op == Op.PAR and n.merge is not None and n.merge.kind == kind`
abbrev pub in_group : MergeKind → Info → Bool
in_group k i = is_par i.op && merges_as k i.merge

abbrev pub both : {A : Type 0} → Result (List A) → Result (List A) → Result (List A)
both l r = do xs ← l; ys ← r; return (xs ++ ys)

unfoldable mutual
  unfolding same_kind

  -- `rec` of `flatten_race_group`
  pub flatten : MergeKind → Node → Result (List Node)
  flatten k (node i l r b p c d) =
      let two = both (flatten_slot k l) (flatten_slot k r) in
      if in_group k i then two else return (node i l r b p c d ∷ [])

  -- `assert n.left is not None`
  pub flatten_slot : MergeKind → Slot → Result (List Node)
  flatten_slot k absent = raise assertion_error
  flatten_slot k (present n) = flatten k n

abbrev pub flatten_from : Option Merge → Node → Result (List Node)
unfolding flatten
flatten_from none n = return (n ∷ [])
flatten_from (some m) n = flatten m.kind n

unfoldable pub flatten_race_group : Node → Result (List Node)
unfolding flatten
flatten_race_group n = flatten_from (info n).merge n

-- `c.effect == Effect.READ or c.idempotency in RACE_SAFE_IDEMPOTENCY`
abbrev pub race_safe : ToolContract → Bool
race_safe c = is_read c.effect || race_safe_idempotency c.idempotency

abbrev pub tool_admission : Text → Option FrozenTool → List Diagnostic
tool_admission id none = err race_no_manifest id ∷ []
tool_admission id (some t) =
    if not t.asserted
    then err race_unasserted id ∷ []
    else flag (not (race_safe t.contract)) (err race_unsafe id)

abbrev pub call_admission : ToolManifest → Text → Option Text → List Diagnostic
call_admission m id none = err race_unfrozen id ∷ []
call_admission m id (some hash) = tool_admission id (get hash m)

-- The loop body of `_branch_admission`.
unfoldable pub step_admission : ToolManifest → Text → Option Step → List Diagnostic
unfolding get
step_admission m id (some (sub s)) = err race_sub id ∷ []
step_admission m id (some (call s)) = call_admission m id s.frozen_hash
step_admission m id _ = []

-- `_branch_admission`
unfoldable pub branch_admission : ToolManifest → Node → Result (List Diagnostic)
unfolding step_admission walk surface_shape
branch_admission m n = do
  s ← surface_shape n
  return (
      collect (λ k. step_admission m (info k).id (info k).step) (walk n)
      ++ flag (shape_leq feedback s) (warn race_rich_branch (info n).id))

abbrev pub race_merge : Bool → Option Merge → Option MergeKind
race_merge par none = none
race_merge par (some m) = if par && race_like m.kind then some m.kind else none

-- The kind of `merge`, if the node is a race.
abbrev pub race_kind : Info → Option MergeKind
race_kind i = race_merge (is_par i.op) i.merge

abbrev pub chained : MergeKind → Option MergeKind → Bool
chained k none = false
chained k (some j) = same_kind k j

abbrev pub unless_chained : Option MergeKind → (in_chain_of : Option MergeKind) → Option MergeKind
unless_chained none chain = none
unless_chained (some k) chain = if chained k chain then none else some k

-- The kind of the group that a node is the root of.
abbrev pub root_kind : Info → (in_chain_of : Option MergeKind) → Option MergeKind
root_kind i chain = unless_chained (race_kind i) chain

-- The loop over the branches of a group, or over the children, from the recursive call.
abbrev pub scan_groups :
    ToolManifest
    → Option MergeKind
    → Node
    → (rec : Option MergeKind → Node → Result (List Diagnostic)) → Result (List Diagnostic)
unfolding flatten_race_group branch_admission
scan_groups m (some k) n rec = do
  branches ← flatten_race_group n
  gather (λ b. both (branch_admission m b) (rec none b)) branches
scan_groups m none n rec = gather (rec (race_kind (info n))) (children n)

-- `scan` of `check_race_admission`. Each call spends one unit of fuel, and as many as there are nodes
-- are enough. The set `seen` stays empty of repetitions, since the flow is a tree.
unfoldable pub scan :
    ToolManifest → (fuel : ℕ) → (in_chain_of : Option MergeKind) → Node → Result (List Diagnostic)
unfolding scan_groups same_kind children
scan m zero in_chain_of n = return []
scan m (suc f) in_chain_of n = scan_groups m (root_kind (info n) in_chain_of) n (scan m f)

unfoldable pub check_race_admission : Node → ToolManifest → Result (List Diagnostic)
unfolding scan walk
check_race_admission flow m = scan m (length (walk flow)) none flow
