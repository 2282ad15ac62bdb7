-- ===== src/Resilience/Policy/Candidates.antt =====
-- The fallback chain of julep/resilience.py: its order and its members.
use julep.Prelude.{
  ◌≡◌, refl, Text, text_eq, text_eq_iff, has_text, get, or_else, true, false, ◌||◌, List, [], ◌∷◌,
  ◌++◌, arith, Bool-cases, inl, inr, append_assoc, append-nil,
}
use mathlib.Core.Path.{subst}
use julep.Resilience.Policy.{ResiliencePolicy, add_new, candidates}

-- No text stands twice.
abbrev pub Distinct : List Text → Type 0
Distinct [] = Unit
Distinct (x ∷ xs) = (has_text x xs ≡ false) × Distinct xs

has_text-append :
    (t x : Text) (xs : List Text) → has_text t (xs ++ (x ∷ [])) ≡ (has_text t xs || text_eq x t)
unfolding has_text
has_text-append t x [] = ground arith
has_text-append t x (y ∷ xs) = ground (arith, has_text-append t x xs)

Distinct-append :
    (xs : List Text) (c : Text) → Distinct xs → has_text c xs ≡ false → Distinct (xs ++ (c ∷ []))
unfolding has_text
Distinct-append [] c h k = (refl, tt)
Distinct-append (x ∷ xs) c h k = (
  ground (arith, h.0, k, has_text-append x c xs, text_eq_iff x c, text_eq_iff c x),
  Distinct-append xs c h.1 (ground (arith, k)),
)

add_new-Distinct : (cs out : List Text) → Distinct out → Distinct (add_new cs out)
unfolding add_new
add_new-Distinct [] out h = h
add_new-Distinct (c ∷ cs) out h = elim (Bool-cases (has_text c out)) [
  | inl e ↦ rw (add_new, e) (add_new-Distinct cs out h)
  | inr e ↦ rw (add_new, e) (add_new-Distinct cs (out ++ (c ∷ [])) (Distinct-append out c h e))
]

same_texts :
    (t : Text) (cs out : List Text)
    → has_text t (add_new cs out) ≡ (has_text t out || has_text t cs)
unfolding add_new has_text
same_texts t [] out = ground arith
same_texts t (c ∷ cs) out = elim (Bool-cases (has_text c out)) [
  | inl e ↦ rw (add_new, e) (ground (arith, same_texts t cs out, e, seen t c out e))
  | inr e ↦
      rw (add_new, e) (ground (arith, same_texts t cs (out ++ (c ∷ [])), has_text-append t c out))
]
  where
    seen :
        (t c : Text) (out : List Text)
        → has_text c out ≡ true
        → text_eq c t ≡ true
        → has_text t out ≡ true
    seen t c out e q = subst (λ x. has_text x out ≡ true) ((text_eq_iff c t).0 q) e

extends : (cs out : List Text) → (rest : List Text) × (add_new cs out ≡ out ++ rest)
unfolding add_new
extends [] out = ([], rw append-nil refl)
extends (c ∷ cs) out = elim (Bool-cases (has_text c out)) [
  | inl e ↦ let (rest, q) = extends cs out in (rest, rw (add_new, e) q)
  | inr e ↦
      let (rest, q) = extends cs (out ++ (c ∷ [])) in
      (c ∷ rest, rw (add_new, e) (rw append_assoc at q))
]

-- The chain begins with the model asked for, names no model twice, and names exactly the model and
-- its fallbacks.
pub candidates_exact :
    (p : ResiliencePolicy) (model : Text)
    → ((rest : List Text) × (candidates p model ≡ model ∷ rest))
      × Distinct (candidates p model)
      × ((t : Text)
          → has_text t (candidates p model)
            ≡ has_text t (model ∷ or_else (get model p.fallbacks) []))
unfolding candidates has_text
candidates_exact p model = (
  extends (or_else (get model p.fallbacks) []) (model ∷ []),
  add_new-Distinct (model ∷ or_else (get model p.fallbacks) []) [] tt,
  λ t. same_texts t (model ∷ or_else (get model p.fallbacks) []) [],
)
