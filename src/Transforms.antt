-- ===== src/Transforms.antt =====
-- julep/transforms.py: position-encoded node ids, and the ids that stand on more than one node.
pub mod Duplicates
use julep.Prelude.{
  ℕ, suc, Text, text, text_eq, has_text, Bool, true, false, not, ◌&&◌, ltb, ◌==◌, List, [], ◌∷◌,
  ◌++◌, map, if◌then◌else◌,
}
use julep.Ir.{
  Info, Node, node, Slot, absent, present, CaseSlot, no_cases, switch, Cases, end, case, info, walk,
}

-- The parts that `rebuild` adds to an id.
abbrev pub tag : Text → Text → Text
tag id part = id ++ (text "." ++ part)

abbrev pub case_tag : Text → Text → Text
case_tag id key = tag id (text "C[" ++ (key ++ text "]"))

unfoldable mutual
  pub rebuild : Node → Text → Node
  rebuild (node i l r b p c d) id =
      node (record i { id = id }) (rebuild_slot l (tag id (text "L")))
        (rebuild_slot r (tag id (text "R"))) (rebuild_slot b (tag id (text "B")))
        (rebuild_slot p (tag id (text "P"))) (rebuild_case_slot c id)
        (rebuild_slot d (tag id (text "D")))

  pub rebuild_slot : Slot → Text → Slot
  rebuild_slot absent id = absent
  rebuild_slot (present n) id = present (rebuild n id)

  pub rebuild_case_slot : CaseSlot → Text → CaseSlot
  rebuild_case_slot no_cases id = no_cases
  rebuild_case_slot (switch cs) id = switch (rebuild_cases cs id)

  pub rebuild_cases : Cases → Text → Cases
  rebuild_cases end id = end
  rebuild_cases (case key n cs) id = case key (rebuild n (case_tag id key)) (rebuild_cases cs id)

-- `normalize_ids(flow)`, with the default prefix.
unfoldable pub normalize_ids : Node → Node
unfolding rebuild
normalize_ids flow = rebuild flow (text "$")

-- The order of `sorted` on texts.
unfoldable pub text_ltb : Text → Text → Bool
text_ltb [] [] = false
text_ltb [] (b ∷ y) = true
text_ltb (a ∷ x) [] = false
text_ltb (a ∷ x) (b ∷ y) = if a == b then text_ltb x y else ltb a b

unfoldable pub insert_sorted : Text → List Text → List Text
unfolding text_ltb
insert_sorted x [] = x ∷ []
insert_sorted x (y ∷ ys) = if text_ltb y x then y ∷ insert_sorted x ys else x ∷ y ∷ ys

unfoldable pub sorted : List Text → List Text
unfolding insert_sorted
sorted [] = []
sorted (x ∷ xs) = insert_sorted x (sorted xs)

abbrev pub ids : List Node → List Text
ids ns = map (λ n. (info n).id) ns

-- The keys of `seen` with a count above one, each at its last occurrence but one.
unfoldable pub repeated_ids : List Text → List Text
unfolding has_text
repeated_ids [] = []
repeated_ids (x ∷ xs) =
    let rest = repeated_ids xs in if has_text x xs && not (has_text x rest) then x ∷ rest else rest

-- `sorted(i for i, c in seen.items() if c > 1)`
unfoldable pub collect_duplicate_ids : Node → List Text
unfolding repeated_ids sorted
collect_duplicate_ids flow = sorted (repeated_ids (ids (walk flow)))
