-- ===== src/Contracts/Trust.antt =====
-- Contracts seeded from MCP hints, which are untrusted (julep/contracts.py).
use julep.Prelude.{◌≡◌, true, false, ◌↔◌, ◌⊎◌, some, return, arith}
use julep.Json.{bool, truthy}
use julep.Kinds.{read}
use julep.Contracts.{
  McpAnnotations, normalized, hinted, contract_from_annotations, contract_allows_retry,
}

-- The seeded contract permits a retry exactly when the server hinted idempotence, or hinted
-- read-only and neither open-world nor destructive.
seeded-allows-retry :
    (a : McpAnnotations)
    → (contract_allows_retry (contract_from_annotations a) ≡ true) ↔ (
        (hinted a.idempotent_hint ≡ true)
        ⊎ ((hinted a.read_only_hint ≡ true)
            × (hinted a.open_world_hint ≡ false)
            × (hinted a.destructive_hint ≡ false)))
unfolding contract_allows_retry contract_from_annotations
seeded-allows-retry a = ground arith

-- With the MCP defaults filled in, a seeded contract is read-only only if the server said each of
-- the three: read-only, not destructive, not open-world.
normalized-read :
    (a b : McpAnnotations)
    → normalized a ≡ return b
    → (contract_from_annotations b).effect ≡ read
    → (a.read_only_hint ≡ some (bool true))
      × (a.destructive_hint ≡ some (bool false))
      × (a.open_world_hint ≡ some (bool false))
unfolding normalized contract_from_annotations truthy
normalized-read a b h e = ground arith
