-- ===== src/Agent/Limits.antt =====
-- How often an agent of julep/agent_loop.py calls a tool.
use julep.Prelude.{
  ℕ, suc, ◌+◌, ◌≤◌, ◌≡◌, refl, ap, ◌∙◌, Text, text_eq, text_eq_iff, text_eq_self, get, true, false,
  Bool-cases, ◌⊎◌, inl, inr, ℤ, pos, pos_part, ltb_ℤ, Option, none, some, List, [], ◌∷◌,
  if◌then◌else◌, arith,
}
use julep.Agent.{
  CallDenial, AgentContractMap, max_calls_for_tool, put, count_of, charge_at, charge_tool_call,
}

get-put_same : (k : Text) (v : ℕ) (d : List (Text × ℕ)) → get k (put k v d) ≡ some v
unfolding get put
get-put_same k v [] = rw (text_eq_self k) refl
get-put_same k v ((j, u) ∷ d) = elim (Bool-cases (text_eq j k)) [
  | inl e ↦ rw (e, e) refl
  | inr e ↦ rw (e, e) (get-put_same k v d)
]

-- Another counter is as it was, or is the same one.
get-put_other :
    (i k : Text) (v : ℕ) (d : List (Text × ℕ)) → text_eq k i ≡ false → get i (put k v d) ≡ get i d
unfolding get put
get-put_other i k v [] h = rw h refl
get-put_other i k v ((j, u) ∷ d) h = elim (Bool-cases (text_eq j k)) [
  | inl e ↦
      (let other : text_eq j i ≡ false = ap (λ z. text_eq z i) ((text_eq_iff j k).0 e) ∙ h in
        rw (e, other) refl)
  | inr e ↦ rw e (ap (λ z. if text_eq j i then some u else z) (get-put_other i k v d h))
]

abbrev allowed : Option CallDenial → ℕ
allowed none = 1
allowed (some d) = 0

charge-grows :
    (o : Option ℤ) (k i : Text) (counts : List (Text × ℕ))
    → count_of i counts ≤ count_of i (charge_at o k counts).1
unfolding charge_at count_of
charge-grows none k i counts = omega arith
charge-grows (some l) k i counts = elim (Bool-cases (ltb_ℤ (pos (count_of k counts)) l)) [
  | inl e ↦ rw e (put-grows (Bool-cases (text_eq k i)))
  | inr e ↦ rw e (omega arith)
]
  where
    put-grows :
        (text_eq k i ≡ true) ⊎ (text_eq k i ≡ false)
        → count_of i counts ≤ count_of i (put k (suc (count_of k counts)) counts)
    put-grows (inl e) =
        rw (← (text_eq_iff k i).0 e)
          (rw (get-put_same k (suc (count_of k counts)) counts) (omega arith))
    put-grows (inr e) = rw (get-put_other i k (suc (count_of k counts)) counts e) (omega arith)

charge-counts :
    (l : ℤ) (k : Text) (counts : List (Text × ℕ))
    → (allowed (charge_at (some l) k counts).0 + count_of k counts
        ≤ count_of k (charge_at (some l) k counts).1)
      × ((allowed (charge_at (some l) k counts).0 ≡ 0) ⊎ (suc (count_of k counts) ≤ pos_part l))
unfolding charge_at count_of
charge-counts l k counts = elim (Bool-cases (ltb_ℤ (pos (count_of k counts)) l)) [
  | inl e ↦ (
    rw e (rw (get-put_same k (suc (count_of k counts)) counts) (omega arith)),
    inr (below (count_of k counts) l e),
  )
  | inr e ↦ (rw e (omega arith), inl (rw e refl))
]
  where
    below : (n : ℕ) (l : ℤ) → ltb_ℤ (pos n) l ≡ true → suc n ≤ pos_part l
    below n l h = ground arith

allowed_once : (d : Option CallDenial) → allowed d ≤ 1
allowed_once none = omega arith
allowed_once (some d) = omega arith

own-step :
    (l : ℤ) (k : Text) (counts : List (Text × ℕ)) (n : ℕ)
    → n ≤ count_of k counts
    → n ≤ pos_part l
    → (allowed (charge_at (some l) k counts).0 + n ≤ count_of k (charge_at (some l) k counts).1)
      × (allowed (charge_at (some l) k counts).0 + n ≤ pos_part l)
own-step l k counts n a b =
    let (grows, bound) = charge-counts l k counts in
    (omega (arith, grows, a), within (charge_at (some l) k counts).0 bound)
  where
    within :
        (d : Option CallDenial)
        → (allowed d ≡ 0) ⊎ (suc (count_of k counts) ≤ pos_part l)
        → allowed d + n ≤ pos_part l
    within d (inl h) = omega (arith, h, b)
    within d (inr h) = omega (arith, h, a, allowed_once d)

-- `key` is the canonical identity of a tool.
module _ (contracts : AgentContractMap) (key : Text → Text) where
  abbrev pub attempt : Text → List (Text × ℕ) → Option CallDenial × List (Text × ℕ)
  unfolding charge_tool_call
  attempt u counts = charge_tool_call u contracts (some (key u)) counts

  -- The counters after some attempts, the latest first, and how many of them were let through for the
  -- tool `t`.
  unfoldable pub charge_all : (t : Text) → List Text → ℕ × List (Text × ℕ)
  unfolding attempt text_eq
  charge_all t [] = (0, [])
  charge_all t (u ∷ us) =
      let before = charge_all t us in
      let result = attempt u before.1 in
      ((if text_eq u t then allowed result.0 else 0) + before.0, result.1)

  limited :
      (t : Text) (l : ℤ) (us : List Text)
      → max_calls_for_tool t contracts ≡ some l
      → ((charge_all t us).0 ≤ count_of (key t) (charge_all t us).1)
        × ((charge_all t us).0 ≤ pos_part l)
  unfolding charge_all attempt charge_tool_call
  limited t l [] h = (omega arith, omega arith)
  limited t l (u ∷ us) h = elim (Bool-cases (text_eq u t)) [
    | inl e ↦
        (let (a, b) = limited t l us h in
          rw (e, (text_eq_iff u t).0 e, h)
            (own-step l (key t) (charge_all t us).1 (charge_all t us).0 a b))
    | inr e ↦
        (let (a, b) = limited t l us h in
          let before = (charge_all t us).1 in
          (
            rw e (
                omega
                  (arith, a, charge-grows (max_calls_for_tool u contracts) (key u) (key t) before)),
            rw e (omega (arith, b)),
          ))
  ]

-- However often an agent asks, and whatever other tools it calls, a tool with a limit is let through at
-- most that many times.
pub calls_within_limit :
    (contracts : AgentContractMap) (key : Text → Text) (t : Text) (l : ℤ) (us : List Text)
    → max_calls_for_tool t contracts ≡ some l
    → (charge_all contracts key t us).0 ≤ pos_part l
calls_within_limit contracts key t l us h = let (a, b) = limited contracts key t l us h in b
