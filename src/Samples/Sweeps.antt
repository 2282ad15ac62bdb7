-- ===== src/Samples/Sweeps.antt =====
-- A sweep of a store of two objects, of which one is leased.
use julep.Prelude.{
  ℕ, zero, suc, ◌≡◌, refl, Text, text, text_eq, has_text, true, false, ◌&&◌, ◌||◌, inl, Option,
  none, some, List, [], ◌∷◌, here, Exception, gc_error, return, raise,
}
use julep.Json.{Json, obj, arr, str, field, end, nil, get_field}
use julep.Gc.{
  Lease, Store, local_dir, GcResult, is_digest, minus, delete_all, reachable_closure, gc,
}
use julep.Gc.Swept.{stored, gc_keeps, gc_fails_closed, gc_exact}

program : Unit {0}
unfolding gc reachable_closure minus delete_all is_digest has_text text_eq get_field
program = tt

abbrev copies : ℕ → ℕ → Text
copies zero c = []
copies (suc n) c = c ∷ copies n c

abbrev leased : Text
leased = copies 64 97

abbrev orphan : Text
orphan = copies 64 98

abbrev flow_digest : Text
flow_digest = copies 64 99

-- Every blob is a manifest without pures.
abbrev load : Text → Option Json
load digest = some (
    obj (
      field (text "artifactComponents") (str flow_digest)
        (field (text "flow") (str flow_digest) (field (text "pures") (arr nil) end))))

abbrev no_blob : Text → Option Json
no_blob digest = none

abbrev lease : Lease
lease = record { bundle_hash = leased; signature_digest = none; name = none }

abbrev store : Store
store = local_dir (leased ∷ orphan ∷ [])

abbrev roots : List Text
roots = leased ∷ flow_digest ∷ flow_digest ∷ []

closed : reachable_closure load lease ≡ return roots
unfolding program
closed = refl

unreadable : reachable_closure no_blob lease ≡ raise gc_error
unfolding program
unreadable = refl

reaches : has_text leased roots ≡ true
unfolding program
reaches = refl

stores : stored leased store ≡ true
unfolding program
stores = refl

abbrev outcome : GcResult
outcome = record {
  reachable = roots;
  collectable = orphan ∷ [];
  deleted = orphan ∷ [];
  dry_run = false;
}

sweeps : gc load store (return (lease ∷ [])) false false ≡ (return outcome, local_dir (leased ∷ []))
unfolding program
sweeps = refl

gc_keeps_example : stored leased (gc load store (return (lease ∷ [])) false false).1 ≡ true
gc_keeps_example =
    gc_keeps load store (lease ∷ []) false false lease roots leased here closed reaches stores

gc_fails_closed_example :
    (e : Exception) × (gc no_blob store (return (lease ∷ [])) false false ≡ (raise e, store))
gc_fails_closed_example =
    gc_fails_closed no_blob store (lease ∷ []) false false (inl (lease, gc_error, here, unreadable))

gc_exact_example :
    stored orphan (local_dir (leased ∷ []))
    ≡ (stored orphan store && (false || has_text orphan outcome.reachable))
gc_exact_example =
    gc_exact load store (local_dir (leased ∷ [])) (return (lease ∷ [])) false false outcome orphan
      sweeps
