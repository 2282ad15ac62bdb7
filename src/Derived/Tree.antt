-- ===== src/Derived/Tree.antt =====
-- The scan of julep/derived.py as one structural traversal, in which a group's branches are reached along
-- its chain: proofs go by it.
use julep.Prelude.{
  List, [], ◌++◌, Option, none, some, Result, return, raise, assertion_error, ◌>>=◌, if◌then◌else◌,
}
use julep.Ir.{
  same_kind, MergeKind, Node, node, Slot, absent, present, CaseSlot, no_cases, switch, Cases, end,
  case, info,
}
use julep.Contracts.{ToolManifest}
use julep.Validate.Diagnostic.{Diagnostic}
use julep.Derived.{both, in_group, flatten_race_group, branch_admission, race_kind, root_kind}

-- Where the scan is: outside any group, below a chain of a kind if there is one, or on the chain of
-- a group of a kind, whose branches are in the order of `flatten_race_group`.
pub data Place : Type 0 where
  outside : (in_chain_of : Option MergeKind) → Place
  inside : MergeKind → Place

abbrev pub scan_from :
    Option MergeKind
    → (n : Node) → (chain : MergeKind → Result (List Diagnostic))
    → (below : Result (List Diagnostic)) → Result (List Diagnostic)
unfolding flatten_race_group
scan_from none n chain below = below
scan_from (some k) n chain below = do _ ← flatten_race_group n; chain k

-- The scan_tree at a node, from the scans of its branches on the chain of a kind, and of its children
-- below a chain.
abbrev pub scan_outside :
    ToolManifest
    → Option MergeKind
    → (n : Node) → (chain : MergeKind → Result (List Diagnostic))
    → (below : Option MergeKind → Result (List Diagnostic)) → Result (List Diagnostic)
unfolding same_kind
scan_outside m in_chain_of n chain below =
    scan_from (root_kind (info n) in_chain_of) n chain (below (race_kind (info n)))

abbrev pub scan_at :
    ToolManifest
    → Place
    → (n : Node) → (chain : MergeKind → Result (List Diagnostic))
    → (below : Option MergeKind → Result (List Diagnostic)) → Result (List Diagnostic)
unfolding branch_admission same_kind flatten_race_group
scan_at m (outside in_chain_of) n chain below = scan_outside m in_chain_of n chain below
scan_at m (inside k) n chain below = if in_group k (info n) then chain k else do
  here ← branch_admission m n
  nested ← scan_outside m none n chain below
  return (here ++ nested)

unfoldable mutual
  unfolding scan_at

  pub scan_tree : ToolManifest → Place → Node → Result (List Diagnostic)
  scan_tree m place (node i l r b p c d) =
      scan_at m place (node i l r b p c d) (λ k. both (scan_branch m k l) (scan_branch m k r))
        (λ chain. both (scan_slot m (outside chain) l) (
          both (scan_slot m (outside chain) r) (
            both (scan_slot m (outside chain) b) (
              both (scan_slot m (outside chain) p)
                (both (scan_case_slot m chain c) (scan_slot m (outside chain) d))))))

  pub scan_branch : ToolManifest → MergeKind → Slot → Result (List Diagnostic)
  scan_branch m k absent = raise assertion_error
  scan_branch m k (present n) = scan_tree m (inside k) n

  pub scan_slot : ToolManifest → Place → Slot → Result (List Diagnostic)
  scan_slot m place absent = return []
  scan_slot m place (present n) = scan_tree m place n

  pub scan_case_slot : ToolManifest → Option MergeKind → CaseSlot → Result (List Diagnostic)
  scan_case_slot m chain no_cases = return []
  scan_case_slot m chain (switch cs) = scan_cases m chain cs

  pub scan_cases : ToolManifest → Option MergeKind → Cases → Result (List Diagnostic)
  scan_cases m chain end = return []
  scan_cases m chain (case k n cs) = both (scan_tree m (outside chain) n) (scan_cases m chain cs)
