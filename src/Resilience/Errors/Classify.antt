-- ===== src/Resilience/Errors/Classify.antt =====
-- Authentication failures behind an error, in `classify_error` of julep/resilience.py.
use julep.Prelude.{
  ℕ, ◌≡◌, refl, sym, ◌<◌, ◌↔◌, ◌==◌, Text, Bool, true, false, some, List, [], ◌∷◌, arith,
  Bool-cases, ==_iff, ◌⊎◌, inl, inr,
}
use mathlib.Core.Path.{subst}
use julep.Resilience.Errors.{
  config, Exc, Heap, has_id, is_auth_link, own_class, any_auth, is_auth_error, classify_error,
}
use julep.Resilience.Errors.Reach.{Reaches, NoDangling}
use julep.Resilience.Errors.Chain.{chain_exact}

-- Some exception behind `e`, or `e` itself, is an authentication failure.
abbrev pub AuthBehind : (Text → Text) → Heap → ℕ → Type 0
AuthBehind lower h e = (a : ℕ) × Reaches h.at e a × (is_auth_link lower (h.at a) ≡ true)

module _ (lower : Text → Text) (at : ℕ → Exc) where
  any_auth-found :
      (links : List ℕ)
      → any_auth lower at links ≡ true
      → (a : ℕ) × (has_id a links ≡ true) × (is_auth_link lower (at a) ≡ true)
  unfolding any_auth has_id
  any_auth-found [] q = ground (arith, q)
  any_auth-found (x ∷ links) q = elim (Bool-cases (is_auth_link lower (at x))) [
    | inl s ↦ (x, ground arith, s)
    | inr s ↦
        let (a, m, t) = any_auth-found links (ground (arith, s, q)) in (a, ground (arith, m), t)
  ]

  found-any_auth :
      (links : List ℕ) (a : ℕ)
      → has_id a links ≡ true
      → is_auth_link lower (at a) ≡ true
      → any_auth lower at links ≡ true
  unfolding any_auth has_id
  found-any_auth [] a m t = ground (arith, m)
  found-any_auth (x ∷ links) a m t = elim (Bool-cases (x == a)) [
    | inl s ↦
        let same = subst (λ y. is_auth_link lower (at y) ≡ true) (sym ((==_iff x a).0 s)) t in
        ground (arith, same)
    | inr s ↦ ground (arith, found-any_auth links a (ground (arith, m, s)) t)
  ]

-- `is_auth_error` answers, and says yes exactly when an authentication failure is behind the error.
pub auth_exact :
    (lower : Text → Text) (h : Heap) (e : ℕ)
    → NoDangling h
    → e < h.size
    → (b : Bool) × (is_auth_error lower h e ≡ some b) × ((b ≡ true) ↔ AuthBehind lower h e)
unfolding is_auth_error
auth_exact lower h e sound l =
    let (links, q, exact) = chain_exact h e sound l in
    (
      any_auth lower h.at links,
      rw (is_auth_error, q) refl,
      (
        λ t. let (a, m, s) = any_auth-found lower h.at links t in (a, (exact a).0 m, s),
        λ w. let (a, r, s) = w in found-any_auth lower h.at links a ((exact a).1 r) s,
      ),
    )

-- Every error is classified: as a configuration error if an authentication failure is anywhere
-- behind it, and otherwise as the top exception alone decides.
pub classify_exact :
    (lower : Text → Text) (h : Heap) (e : ℕ)
    → NoDangling h
    → e < h.size
    → (AuthBehind lower h e × (classify_error lower h e ≡ some config))
      ⊎ (¬ AuthBehind lower h e × (classify_error lower h e ≡ some (own_class lower (h.at e))))
unfolding classify_error
classify_exact lower h e sound l =
    let (b, q, exact) = auth_exact lower h e sound l in by_verdict b q exact
  where
    by_verdict :
        (b : Bool)
        → is_auth_error lower h e ≡ some b
        → ((b ≡ true) ↔ AuthBehind lower h e)
        → (AuthBehind lower h e × (classify_error lower h e ≡ some config))
          ⊎ (¬ AuthBehind lower h e × (classify_error lower h e ≡ some (own_class lower (h.at e))))
    by_verdict true q exact = inl (exact.0 refl, rw (classify_error, q) refl)
    by_verdict false q exact = inr (λ w. ground (arith, exact.1 w), rw (classify_error, q) refl)
