-- ===== src/Transcript/Suffix.antt =====
-- The budget of julep/transcript.py: what is kept, what is elided, and how much it counts.
use mathlib.Core.List.{reverse, reverse-cons, reverse-append, reverse-reverse}
use mathlib.Core.Path.{subst}
use julep.Prelude.{
  ℕ, ◌+◌, ◌-◌, ◌≤◌, ◌≡◌, refl, sym, ap, ◌∙◌, Bool, true, false, not, Bool-cases, ◌⊎◌, inl, inr, ℤ,
  pos, pos_part, ltb_ℤ, List, [], ◌∷◌, ◌++◌, append_assoc, length, length-append, take, arith,
}
use julep.Transcript.{Turn, is_tool_result, fitting, drop_results, split_to_budget}

take-append : {A : Type 0} (xs ys : List A) → take (length xs) (xs ++ ys) ≡ xs
take-append [] ys = refl
take-append (x ∷ xs) ys = ap (◌∷◌ x) (take-append xs ys)

length_left : {A : Type 0} (xs ys : List A) → length (xs ++ ys) - length ys ≡ length xs
length_left xs ys = omega (arith, length-append xs ys)

-- The first turn, if there is one, is no tool result.
abbrev pub starts_whole : List Turn → Bool
starts_whole [] = true
starts_whole (t ∷ ts) = not (is_tool_result t)

module _ (cost : Turn → ℕ) where
  abbrev pub tokens : List Turn → ℕ
  tokens [] = 0
  tokens (t ∷ ts) = cost t + tokens ts

  tokens-append : (xs ys : List Turn) → tokens (xs ++ ys) ≡ tokens xs + tokens ys
  tokens-append [] ys = omega arith
  tokens-append (x ∷ xs) ys = omega (arith, tokens-append xs ys)

  tokens-reverse : (xs : List Turn) → tokens (reverse xs) ≡ tokens xs
  tokens-reverse [] = refl
  tokens-reverse (x ∷ xs) =
      ap tokens (reverse-cons x xs)
      ∙ tokens-append (reverse xs) (x ∷ [])
      ∙ rw (tokens-reverse xs) (omega arith)

  module _ (max_tokens : ℤ) where
    within : (k : ℕ) → ltb_ℤ max_tokens (pos k) ≡ false → k ≤ pos_part max_tokens
    within k h = ground arith

    kept_bound :
        (n c : ℕ) (kept : List Turn)
        → ltb_ℤ max_tokens (pos (n + c)) ≡ false
        → (kept ≡ []) ⊎ (n + c + tokens kept ≤ pos_part max_tokens)
        → n + (c + tokens kept) ≤ pos_part max_tokens
    kept_bound n c kept h (inl none_) = rw none_ (omega (arith, within (n + c) h))
    kept_bound n c kept h (inr le) = omega (arith, le)

    fitting-prefix :
        (n : ℕ) (ts : List Turn)
        → (rest : List Turn) × (fitting cost max_tokens n ts ++ rest ≡ ts)
          × ((fitting cost max_tokens n ts ≡ [])
              ⊎ (n + tokens (fitting cost max_tokens n ts) ≤ pos_part max_tokens))
    unfolding fitting
    fitting-prefix n [] = ([], refl, inl refl)
    fitting-prefix n (t ∷ ts) = elim (Bool-cases (ltb_ℤ max_tokens (pos (n + cost t)))) [
      | inl e ↦ (t ∷ ts, rw e refl, inl (rw e refl))
      | inr e ↦
          (let (rest, h, b) = fitting-prefix (n + cost t) ts in
            (rest, rw e (ap (◌∷◌ t) h), inr (rw e (kept_bound n (cost t) _ e b))))
    ]

    drop-append :
        (e k : List Turn)
        → (drop_results cost max_tokens e k).0 ++ (drop_results cost max_tokens e k).1 ≡ e ++ k
    unfolding drop_results
    drop-append e [] = refl
    drop-append e (t ∷ ts) = elim (Bool-cases (is_tool_result t)) [
      | inl h ↦ rw h (drop-append (e ++ (t ∷ [])) ts ∙ append_assoc e (t ∷ []) ts)
      | inr h ↦ rw h refl
    ]

    drop-starts : (e k : List Turn) → starts_whole (drop_results cost max_tokens e k).1 ≡ true
    unfolding drop_results
    drop-starts e [] = refl
    drop-starts e (t ∷ ts) = elim (Bool-cases (is_tool_result t)) [
      | inl h ↦ rw h (drop-starts (e ++ (t ∷ [])) ts)
      | inr h ↦ rw (h, h) refl
    ]

    drop-tokens : (e k : List Turn) → tokens (drop_results cost max_tokens e k).1 ≤ tokens k
    unfolding drop_results
    drop-tokens e [] = omega arith
    drop-tokens e (t ∷ ts) = elim (Bool-cases (is_tool_result t)) [
      | inl h ↦ rw h (omega (arith, drop-tokens (e ++ (t ∷ [])) ts))
      | inr h ↦ rw h (omega arith)
    ]

-- The split keeps a suffix of the turns and elides the rest, in order; what is kept counts at most the
-- budget, and does not begin with the result of a tool call that is elided.
pub split_exact :
    (cost : Turn → ℕ) (max_tokens : ℤ) (turns : List Turn)
    → ((split_to_budget cost max_tokens turns).0 ++ (split_to_budget cost max_tokens turns).1
        ≡ turns)
      × (tokens cost (split_to_budget cost max_tokens turns).1 ≤ pos_part max_tokens)
      × (starts_whole (split_to_budget cost max_tokens turns).1 ≡ true)
unfolding split_to_budget
split_exact cost max_tokens turns =
    let newest = fitting cost max_tokens 0 (reverse turns) in
    let kept = reverse newest in
    let elided = take (length turns - length kept) turns in
    let (rest, h, b) = fitting-prefix cost max_tokens 0 (reverse turns) in
    let whole : reverse rest ++ kept ≡ turns =
      sym (reverse-append newest rest) ∙ ap reverse h ∙ reverse-reverse turns in
    (
      drop-append cost max_tokens elided kept ∙ cut (reverse rest) kept turns whole,
      omega (
        arith,
        drop-tokens cost max_tokens elided kept,
        tokens-reverse cost newest,
        newest_bound newest b,
      ),
      drop-starts cost max_tokens elided kept,
    )
  where
    cut : (a k ts : List Turn) → a ++ k ≡ ts → take (length ts - length k) ts ++ k ≡ ts
    cut a k ts h =
        subst (λ z. take (length z - length k) z ++ k ≡ z) h
          (ap (λ n. take n (a ++ k) ++ k) (length_left a k) ∙ ap (λ z. z ++ k) (take-append a k))

    newest_bound :
        (ts : List Turn)
        → (ts ≡ []) ⊎ (0 + tokens cost ts ≤ pos_part max_tokens)
        → tokens cost ts ≤ pos_part max_tokens
    newest_bound ts (inl h) = rw h (omega arith)
    newest_bound ts (inr h) = omega (arith, h)
