-- ===== src/Samples/Errors.antt =====
-- A retried call whose first failure was a rejected key: the second one, a server error, was raised
-- while the first was handled, and refers to it and to itself.
use julep.Prelude.{
  ℕ, zero, suc, ◌≡◌, refl, ◌⊎◌, ◌↔◌, Text, text_eq, true, false, pos, none, some, List, [], arith,
}
use julep.Resilience.Errors.{config, own_class, Exc, Heap, has_id, chain, classify_error}
use julep.Resilience.Errors.Reach.{Reaches, NoDangling}
use julep.Resilience.Errors.Chain.{chain_exact}
use julep.Resilience.Errors.Classify.{AuthBehind, classify_exact}

abbrev plain : Exc
plain = record {
  status_code = none;
  http_status = none;
  status = none;
  code = none;
  response = none;
  message = [];
  is_timeout = false;
  cause = none;
  context = none;
}

abbrev objects : ℕ → Exc
objects zero = record plain { response = some (some (pos 401)) }
objects (suc n) = record plain { status_code = some (pos 503); cause = some 1; context = some 0 }

abbrev retried : Heap
retried = record { size = 2; at = objects }

retried-NoDangling : NoDangling retried
retried-NoDangling zero l = (tt, tt)
retried-NoDangling (suc n) l = (omega arith, omega arith)

chain_exact_example :
    (out : List ℕ) × (chain retried 1 ≡ some out)
    × ((a : ℕ) → (has_id a out ≡ true) ↔ Reaches objects 1 a)
chain_exact_example = chain_exact retried 1 retried-NoDangling (omega arith)

abbrev as_is : Text → Text
as_is t = t

classify_exact_example :
    (AuthBehind as_is retried 1 × (classify_error as_is retried 1 ≡ some config))
    ⊎ (¬ AuthBehind as_is retried 1
        × (classify_error as_is retried 1 ≡ some (own_class as_is (objects 1))))
classify_exact_example = classify_exact as_is retried 1 retried-NoDangling (omega arith)

retried_config : classify_error as_is retried 1 ≡ some config
unfolding classify_error chain text_eq
retried_config = refl
