-- ===== src/Validate/Gate.antt =====
-- `validate` of julep/validate.py: all rules together.
pub mod Accepts
use julep.Prelude.{
  Text, Bool, true, false, ◌&&◌, Option, none, some, List, [], ◌∷◌, ◌++◌, map, if◌then◌else◌,
  Result, return, raise, gather, ◌>>=◌,
}
use julep.Json.{Json}
use julep.Kinds.{Op}
use julep.Ir.{Info, Node, node, Slot, absent, present, info, walk}
use julep.Contracts.{ToolManifest}
use julep.Transforms.{collect_duplicate_ids}
use julep.Validate.Diagnostic.{Diagnostic, err, flag, is_loop, dup_id, seq_type}
use julep.Validate.Fence.{check_session_concurrency_fence}
use julep.Validate.Turns.{check_session_loop_productivity}
use julep.Validate.Session.{
  check_session_loop_placement, check_session_loop_fields, check_session_channel_declared,
  check_session_target,
}
use julep.Validate.Args.{check_ann_retry_fields}
use julep.Validate.Structure.{check_structure}
use julep.Validate.Calls.{check_call_and_ctx, check_degraded, entry_schema, exit_schema}

-- The `target` argument.
pub data Target : Type 0 where
  by_root flow session : Target

abbrev pub is_session : Target → Node → Bool
is_session by_root n = is_loop (info n).op
is_session flow n = false
is_session session n = true

-- The tree-wide rules, before the walk.
abbrev pub session_rules : Bool → Node → List Diagnostic
session_rules s n =
    check_session_concurrency_fence n
    ++ (check_session_loop_productivity n
        ++ (check_session_loop_placement n
            ++ (check_session_loop_fields n
                ++ (check_session_channel_declared n ++ check_session_target n s))))

-- `registered` is the registry of pures, `reserved` the scan of a reply schema, and `incompatible`
-- the test `schema_incompatibility`.
module _ (registered : List Text) (reserved : Json → List Text)
    (incompatible : Option Json → Option Json → Bool) where
  abbrev edge_at : Op → Option ToolManifest → (l r : Slot) → Text → Result (List Diagnostic)
  edge_at Op.seq (some m) (present l) (present r) id = do
    out ← exit_schema m l
    inp ← entry_schema m r
    return (flag (incompatible out inp) (err seq_type id))
  edge_at _ _ _ _ id = return []

  abbrev check_edge : Option ToolManifest → Node → Result (List Diagnostic)
  check_edge m (node i l r b p c d) = edge_at i.op m l r i.id

  -- The body of the loop over the walk.
  unfoldable pub check_node : Option ToolManifest → Node → Result (List Diagnostic)
  check_node m n = do
    structure ← check_structure registered reserved n
    retry ← check_ann_retry_fields (info n)
    edge ← check_edge m n
    return (structure ++ (retry ++ (check_call_and_ctx m (info n) ++ (edge ++ check_degraded n))))

  unfoldable pub validate : Node → Option ToolManifest → Target → Result (List Diagnostic)
  unfolding check_node
  validate n m t = do
    nodes ← gather (check_node m) (walk n)
    return (
        map (λ id. err dup_id id) (collect_duplicate_ids n)
        ++ (session_rules (is_session t n) n ++ nodes))
