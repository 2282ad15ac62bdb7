-- ===== src/Transcript/Paired.antt =====
-- Tool results and their calls in a transcript of julep/transcript.py.
use julep.Prelude.{
  ℕ, ◌≡◌, refl, ap, ◌∙◌, Text, text_eq, text_eq_self, Bool, true, false, not, ◌&&◌, ◌||◌,
  Bool-cases, and-eq_true, and_intro, inl, inr, ℤ, Option, none, some, List, [], ◌∷◌, ◌++◌, is_some,
  arith, length,
}
use julep.Json.{Json}
use julep.Kinds.{ContextScope}
use julep.Transcript.{
  Role, assistant, Turn, TraceEntry, plain_turn, user, is_action, is_tool_result,
  in_transcript_scopes, result_turn, turns_of, transcript_for, split_to_budget, mark_elided,
  elision_marker, bounded_transcript,
}
use julep.Transcript.Suffix.{starts_whole, split_exact}

abbrev is_assistant : Role → Bool
is_assistant assistant = true
is_assistant _ = false

abbrev same_id : Option Text → Option Text → Bool
same_id (some a) (some b) = text_eq a b
same_id _ _ = false

-- The turn before is the call with the id of the result.
abbrev answers : Option Turn → Turn → Bool
answers none t = false
answers (some a) t = is_assistant a.role && same_id a.tool_call_id t.tool_call_id

-- Every tool result with an id comes directly after its call; `before` is the turn before the list.
unfoldable pub paired : (before : Option Turn) → List Turn → Bool
unfolding text_eq
paired before [] = true
paired before (t ∷ ts) = (not (is_tool_result t) || answers before t) && paired (some t) ts

paired_anywhere :
    (p q : Option Turn) (ts : List Turn)
    → paired p ts ≡ true
    → starts_whole ts ≡ true
    → paired q ts ≡ true
unfolding paired
paired_anywhere p q [] h s = refl
paired_anywhere p q (t ∷ ts) h s =
    let (a, b) = and-eq_true (not (is_tool_result t) || answers p t) (paired (some t) ts) h in
    and_intro _ _ (first (not (is_tool_result t)) (answers q t) s) b
  where
    first : (x y : Bool) → x ≡ true → (x || y) ≡ true
    first x y h = ground arith

-- A suffix that does not begin with a result is paired by itself.
paired-suffix :
    (p q : Option Turn) (xs ys : List Turn)
    → paired p (xs ++ ys) ≡ true
    → starts_whole ys ≡ true
    → paired q ys ≡ true
unfolding paired
paired-suffix p q [] ys h s = paired_anywhere p q ys h s
paired-suffix p q (x ∷ xs) ys h s =
    let (a, b) =
      and-eq_true (not (is_tool_result x) || answers p x) (paired (some x) (xs ++ ys)) h in
    paired-suffix (some x) q xs ys b s

module _ (dumps : Json → Text) where
  paired-turns_of : (p : Option Turn) (es : List TraceEntry) → paired p (turns_of dumps es) ≡ true
  unfolding paired turns_of
  paired-turns_of p [] = refl
  paired-turns_of p (e ∷ es) = elim (Bool-cases (is_action e.decision)) [
    | inl h ↦
        rw h
          (and_intro _ _ (own_result e.call_id) (paired-turns_of (some (result_turn dumps e)) es))
    | inr h ↦ rw h (paired-turns_of p es)
  ]
    where
      own_result : (id : Option Text) → (not (is_some id) || same_id id id) ≡ true
      own_result none = refl
      own_result (some t) = rw text_eq_self refl

  paired-transcript :
      (trace : List TraceEntry) (scope : ContextScope) (input : Json)
      → paired none (transcript_for dumps trace scope input) ≡ true
  unfolding transcript_for paired
  paired-transcript trace scope input = elim (Bool-cases (in_transcript_scopes scope)) [
    | inl h ↦ rw h (paired-turns_of (some (plain_turn user (some input))) trace)
    | inr h ↦ rw h refl
  ]

-- However small the budget, every tool result with an id in the bounded transcript comes directly after
-- its call: a provider never sees a result without its call.
pub bounded-paired :
    (dumps : Json → Text) (cost : Turn → ℕ) (max_tokens : ℤ) (trace : List TraceEntry)
    (scope : ContextScope) (input : Json)
    → paired none (bounded_transcript cost max_tokens (transcript_for dumps trace scope input))
      ≡ true
unfolding bounded_transcript paired
bounded-paired dumps cost max_tokens trace scope input =
    let turns = transcript_for dumps trace scope input in
    let (whole, b, s) = split_exact cost max_tokens turns in
    let all = ap (paired none) whole ∙ paired-transcript dumps trace scope input in
    marked (split_to_budget cost max_tokens turns).0 (split_to_budget cost max_tokens turns).1 all s
  where
    marked :
        (e k : List Turn)
        → paired none (e ++ k) ≡ true
        → starts_whole k ≡ true
        → paired none (mark_elided cost max_tokens e k) ≡ true
    marked [] k h s = h
    marked (x ∷ xs) k h s =
        paired-suffix none (some (elision_marker cost max_tokens (length (x ∷ xs)))) (x ∷ xs) k h s
