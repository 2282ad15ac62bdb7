-- ===== src/Continuation.antt =====
-- julep/continuation.py: the driver of a flow that asks to be run again.
pub mod Settles
use julep.Prelude.{
  ℕ, zero, suc, Text, text, Bool, true, false, ℤ, pos_part, is_some, Option, none, some, Result,
  return, raise, julep_error, ◌>>=◌,
}
use julep.Json.{Json, obj, field, end, get_field}

abbrev pub continuation_key : Text
continuation_key = text "__continue__"

unfoldable pub continue_with : Json → Json
continue_with v = obj (field continuation_key v end)

-- `value[CONTINUATION_KEY]`, where the value is a dict that has the key.
unfoldable pub continuation_value : Json → Option Json
unfolding get_field
continuation_value (obj fields) = get_field continuation_key fields
continuation_value _ = none

unfoldable pub is_continuation : Json → Bool
unfolding continuation_value
is_continuation v = is_some (continuation_value v)

abbrev pub settle_or : Json → Option Json → (Json → Result Json) → Result Json
settle_or out none again = return out
settle_or out (some next) again = again next

-- `run_segment` is what the `i`th segment gives for an input.
module _ (run_segment : ℕ → Json → Result Json) where
  -- The loop over the segments that are left.
  unfoldable pub chained : (left i : ℕ) → Json → Result Json
  unfolding continuation_value
  chained zero i value = raise julep_error
  chained (suc left) i value = do
    out ← run_segment i value
    settle_or out (continuation_value out) (λ next. chained left (suc i) next)

  unfoldable pub run_chained : Json → (max_segments : ℤ) → Result Json
  unfolding chained
  run_chained input max_segments = chained (pos_part max_segments) 0 input
