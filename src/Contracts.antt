-- ===== src/Contracts.antt =====
-- julep/contracts.py: tool contracts, the MCP hints that seed them, and the frozen manifest.
pub mod Trust
use julep.Prelude.{
  Text, Bool, true, false, ◌||◌, ◌&&◌, Option, none, some, List, get, Result, return, raise,
  value_error, ◌>>=◌, is_some,
}
use julep.Json.{Json, bool, truthy, is_bool}
use julep.Kinds.{
  Effect, read, write, external, dangerous, Idempotency, native, is_read, race_safe_idempotency,
}
use julep.Ir.{ToolRef}

pub record ToolContract : Type 0 where
  pub effect : Effect
  pub idempotency : Idempotency

abbrev pub conservative_default : ToolContract
conservative_default = record { effect = write; idempotency = Idempotency.none }

-- Whether a tool contract permits retrying the same logical call.
unfoldable pub contract_allows_retry : ToolContract → Bool
contract_allows_retry c = is_read c.effect || race_safe_idempotency c.idempotency

-- The hints as decoded: `from_mcp` checks no type.
pub record McpAnnotations : Type 0 where
  pub read_only_hint : Option Json
  pub destructive_hint : Option Json
  pub open_world_hint : Option Json
  pub idempotent_hint : Option Json

-- `value is not None and not isinstance(value, bool)` raises `ValueError`; `None` is the default.
abbrev default_hint : Bool → Option Json → Result (Option Json)
default_hint d none = return (some (bool d))
default_hint d (some (bool b)) = return (some (bool b))
default_hint d (some _) = raise value_error

-- The MCP defaults for hints that a server left out.
unfoldable pub normalized : McpAnnotations → Result McpAnnotations
normalized a = do
  r ← default_hint false a.read_only_hint
  d ← default_hint true a.destructive_hint
  o ← default_hint true a.open_world_hint
  i ← default_hint false a.idempotent_hint
  return (record {
    read_only_hint = r;
    destructive_hint = d;
    open_world_hint = o;
    idempotent_hint = i;
  })

-- `if hint:`
abbrev pub hinted : Option Json → Bool
hinted none = false
hinted (some v) = truthy v

abbrev when : Bool → Effect → Effect → Effect
when true e f = e
when false e f = f

abbrev idempotency_of : Bool → Idempotency
idempotency_of true = native
idempotency_of false = conservative_default.idempotency

-- Destructive dominates external, which dominates read-only.
unfoldable pub contract_from_annotations : McpAnnotations → ToolContract
contract_from_annotations a =
    let e1 = when (hinted a.read_only_hint) read conservative_default.effect in
    let e2 = when (hinted a.open_world_hint) external e1 in
    let e3 = when (hinted a.destructive_hint) dangerous e2 in
    record { effect = e3; idempotency = idempotency_of (hinted a.idempotent_hint) }

pub record FrozenTool : Type 0 where
  pub definition_hash : Text
  pub execution_hash : Text
  pub ref : ToolRef
  pub input_schema : Json
  pub contract : ToolContract
  pub output_schema : Option Json
  pub server_version : Option Text
  pub protocol_version : Option Text
  pub annotations : Option McpAnnotations
  pub asserted : Bool
  pub assertion_provenance : Option Text

-- A dict from execution hashes, by its entries.
abbrev pub ToolManifest : Type 0
ToolManifest = List (Text × FrozenTool)
