-- ===== src/Gc.antt =====
-- julep/gc.py: the mark and sweep of the artifact store. A set is a list, of which only membership is
-- read. The order of the deletions, which the source sorts, changes nothing of what is left.

pub mod Swept
use julep.Prelude.{
  ℕ, Text, text, text_eq, has_text, Bool, true, false, not, ◌&&◌, ◌||◌, ◌==◌, leb, length, Option,
  none, some, List, [], ◌∷◌, ◌++◌, if◌then◌else◌, Result, return, raise, gather, gc_error, ◌>>=◌,
}
use julep.Json.{Json, null, arr, obj, str, Items, nil, cons, Fields, get_field}

pub record Lease : Type 0 where
  pub bundle_hash : Text
  pub signature_digest : Option Text
  pub name : Option Text

-- The digests that a local store lists, or a store that cannot be listed.
pub data Store : Type 0 where
  local_dir : (objects : List Text) → Store
  not_enumerable : (objects : List Text) → Store

pub record GcResult : Type 0 where
  pub reachable : List Text
  pub collectable : List Text
  pub deleted : List Text
  pub dry_run : Bool

abbrev is_hex : ℕ → Bool
is_hex c = (leb 48 c && leb c 57) || (leb 97 c && leb c 102)

abbrev all_hex : Text → Bool
all_hex [] = true
all_hex (c ∷ t) = is_hex c && all_hex t

-- `^[0-9a-f]{64}$`, matched in full.
unfoldable pub is_digest : Text → Bool
is_digest t = length t == 64 && all_hex t

-- `_require_digest`: `lower` changes nothing of a digest.
unfoldable pub require_digest : Option Json → Result Text
unfolding is_digest
require_digest (some (str t)) = if is_digest t then return t else raise gc_error
require_digest _ = raise gc_error

abbrev one_digest : Option Json → Result (List Text)
unfolding require_digest
one_digest v = do d ← require_digest v; return (d ∷ [])

abbrev env_component : Option Json → Result (List Text)
unfolding require_digest
env_component none = return []
env_component (some null) = return []
env_component v = one_digest v

-- A hash of the environment is checked, and its component is what the store holds.
abbrev env_digests : (env_hash component : Option Json) → Result (List Text)
unfolding require_digest
env_digests none component = env_component component
env_digests (some null) component = env_component component
env_digests hash component = do _ ← require_digest hash; one_digest component

unfoldable pub pure_digests : Json → Result (List Text)
unfolding require_digest get_field
pure_digests (obj pure) = do
  source ← require_digest (get_field (text "source") pure)
  env ← env_digests (get_field (text "envHash") pure) (get_field (text "envComponent") pure)
  return (source ∷ env)
pure_digests _ = raise gc_error

unfoldable pub pures_digests : Items → Result (List Text)
unfolding pure_digests
pures_digests nil = return []
pures_digests (cons pure rest) = do
  here ← pure_digests pure
  more ← pures_digests rest
  return (here ++ more)

abbrev listed_pures : Option Json → Result (List Text)
unfolding pures_digests
listed_pures (some (arr pures)) = pures_digests pures
listed_pures _ = raise gc_error

abbrev signature : Option Text → List Text
signature none = []
signature (some d) = d ∷ []

-- What a manifest refers to: `none` is one that cannot be read or decoded.
unfoldable pub manifest_digests : Option Json → Result (List Text)
unfolding require_digest get_field pures_digests
manifest_digests (some (obj manifest)) = do
  components ← require_digest (get_field (text "artifactComponents") manifest)
  flow ← require_digest (get_field (text "flow") manifest)
  pures ← listed_pures (get_field (text "pures") manifest)
  return (components ∷ flow ∷ pures)
manifest_digests _ = raise gc_error

-- `_enumerate_objects`
abbrev pub enumerate_objects : Store → Result (List Text)
enumerate_objects (local_dir objects) = return objects
enumerate_objects (not_enumerable objects) = raise gc_error

-- `all_objects - reachable`
unfoldable pub minus : List Text → List Text → List Text
unfolding has_text
minus [] reachable = []
minus (x ∷ xs) reachable =
    let rest = minus xs reachable in if has_text x reachable then rest else x ∷ rest

-- `_delete_object`
abbrev pub delete_object : Text → Store → Store
unfolding minus
delete_object digest (local_dir objects) = local_dir (minus objects (digest ∷ []))
delete_object digest (not_enumerable objects) = not_enumerable objects

unfoldable pub delete_all : List Text → Store → Store
unfolding minus
delete_all [] store = store
delete_all (d ∷ ds) store = delete_all ds (delete_object d store)

abbrev pub sweep :
    Store → (dry_run : Bool) → Result (List Text × List Text) → Result GcResult × Store
unfolding minus delete_all
sweep store dry_run (raise e) = (raise e, store)
sweep store true (return (roots, objects)) = (
  return (record {
    reachable = roots;
    collectable = minus objects roots;
    deleted = [];
    dry_run = true;
  }),
  store,
)
sweep store false (return (roots, objects)) = (
  return (record {
    reachable = roots;
    collectable = minus objects roots;
    deleted = minus objects roots;
    dry_run = false;
  }),
  delete_all (minus objects roots) store,
)

-- `load` reads the blob of a digest and decodes it.
module _ (load : Text → Option Json) where
  unfoldable pub reachable_closure : Lease → Result (List Text)
  unfolding manifest_digests
  reachable_closure lease = do
    refs ← manifest_digests (load lease.bundle_hash)
    return (lease.bundle_hash ∷ (signature lease.signature_digest ++ refs))

  abbrev pub roots_of : (collect_all : Bool) → List Lease → Result (List Text)
  unfolding reachable_closure
  roots_of true [] = return []
  roots_of false [] = raise gc_error
  roots_of collect_all (l ∷ ls) = gather reachable_closure (l ∷ ls)

  -- The roots, and the objects of the store, before anything is deleted.
  abbrev pub mark :
      Store → Result (List Lease) → (collect_all : Bool) → Result (List Text × List Text)
  unfolding reachable_closure
  mark store leases collect_all = do
    found ← leases
    roots ← roots_of collect_all found
    objects ← enumerate_objects store
    return (roots, objects)

  -- `gc`, with the store that it leaves. `leases` is what `list_leases` gives.
  unfoldable pub gc :
      Store
      → (leases : Result (List Lease)) → (dry_run collect_all : Bool) → Result GcResult × Store
  unfolding reachable_closure minus delete_all
  gc store leases dry_run collect_all = sweep store dry_run (mark store leases collect_all)
