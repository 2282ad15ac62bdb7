-- ===== src/Resilience/Breaker/Laws.antt =====
-- What each operation of the circuit breaker does to every key.
use julep.Prelude.{
  ℕ, ◌≡◌, Text, text_eq, text_eq_iff, get, none, some, List, [], ◌∷◌, if◌then◌else◌, arith,
}
use julep.Resilience.Breaker.{pop, put}

pub get-pop :
    (k j : Text) (d : List (Text × ℕ)) → get j (pop k d) ≡ (if text_eq k j then none else get j d)
unfolding get pop
get-pop k j [] = ground arith
get-pop k j ((i, v) ∷ d) =
    ground (arith, get-pop k j d, text_eq_iff i k, text_eq_iff i j, text_eq_iff k j)

pub get-put :
    (k j : Text) (v : ℕ) (d : List (Text × ℕ))
    → get j (put k v d) ≡ (if text_eq k j then some v else get j d)
unfolding get put
get-put k j v d = ground (arith, get-pop k j d)
