-- ===== src/Validate/Args.antt =====
-- Static arguments and retry annotations: `_check_arr_args`, `_check_json_value` and
-- `_check_ann_retry_fields` of julep/validate.py.
use julep.Prelude.{
  ℕ, zero, suc, ◌+◌, ◌-◌, ◌*◌, ◌^◌, Text, text, Bool, true, false, not, ◌&&◌, ◌||◌, ◌==◌, leb, ℤ,
  pos, negsuc, ltb_ℤ, Option, none, some, List, [], ◌∷◌, ◌++◌, if◌then◌else◌, Result, return, raise,
  overflow_error, ◌>>=◌,
}
use julep.Json.{Float, finite, Json, Items, nil, cons, Fields, end, field}
use julep.Ir.{Wire, Ann, Info}
use julep.Validate.Diagnostic.{
  Diagnostic, err, flag, arr_args_not_object, arr_args_bad_key, arr_args_secret, arr_args_not_json,
  retry_field_range, retry_field_type,
}

abbrev is_letter : ℕ → Bool
is_letter c = (leb 65 c && leb c 90) || ((leb 97 c && leb c 122) || c == 95)

abbrev is_word : ℕ → Bool
is_word c = is_letter c || (leb 48 c && leb c 57)

-- The rest of `^[A-Za-z_][A-Za-z0-9_]*$`: the `$` also matches before one last newline.
unfoldable pub word_end : Text → Bool
word_end [] = true
word_end (c ∷ []) = is_word c || c == 10
word_end (c ∷ d ∷ t) = is_word c && word_end (d ∷ t)

unfoldable pub is_identifier : Text → Bool
unfolding word_end
is_identifier [] = false
is_identifier (c ∷ t) = is_letter c && word_end t

abbrev lower : ℕ → ℕ
lower c = if leb 65 c && leb c 90 then c + 32 else c

-- The text goes on with `p`, whatever the case of its letters.
unfoldable pub starts_with : Text → Text → Bool
starts_with [] t = true
starts_with (a ∷ p) [] = false
starts_with (a ∷ p) (c ∷ t) = lower c == a && starts_with p t

unfoldable pub contains : Text → Text → Bool
unfolding starts_with
contains p [] = starts_with p []
contains p (c ∷ t) = starts_with p (c ∷ t) || contains p t

-- `SECRET_KEY_RE.search(key)` on an identifier.
unfoldable pub is_secret : Text → Bool
unfolding contains
is_secret key =
    contains (text "token") key
    || (contains (text "secret") key
        || (contains (text "password") key
            || (contains (text "apikey") key
                || (contains (text "api_key") key
                    || (contains (text "credential") key
                        || (contains (text "privatekey") key
                            || contains (text "private_key") key))))))

abbrev check_key : Text → Text → List Diagnostic
check_key key id =
    if is_identifier key
    then flag (is_secret key) (err arr_args_secret id)
    else err arr_args_bad_key id ∷ []

abbrev is_finite : Float → Bool
is_finite (finite num den) = true
is_finite _ = false

-- The flag `ok` that the source returns beside is true when no diagnostic is added.
unfoldable mutual
  unfolding is_identifier is_secret

  pub check_json_value : Json → Text → List Diagnostic
  check_json_value (Json.obj fields) id = check_fields fields id
  check_json_value (Json.arr items) id = check_items items id
  check_json_value (Json.float f) id = flag (not (is_finite f)) (err arr_args_not_json id)
  check_json_value _ id = []

  pub check_items : Items → Text → List Diagnostic
  check_items nil id = []
  check_items (cons v vs) id = check_json_value v id ++ check_items vs id

  pub check_fields : Fields → Text → List Diagnostic
  check_fields end id = []
  check_fields (field key v fs) id =
      check_key key id ++ (check_json_value v id ++ check_fields fs id)

unfoldable pub check_arr_args : Info → List Diagnostic
unfolding check_json_value
check_arr_args i = elim i.args [
  | none ↦ []
  | some (Json.obj fields) ↦ check_json_value (Json.obj fields) i.id
  | some other ↦ err arr_args_not_object i.id ∷ []
]

-- The least integer for which `float` raises: it would round to 2 ^ 1024.
unfoldable pub float_limit : ℕ
float_limit = 2 ^ 1024 - 2 ^ 970

abbrev magnitude : ℤ → ℕ
magnitude (pos n) = n
magnitude (negsuc n) = suc n

-- `float(value)` of a number, then `not math.isfinite(value) or value < least`.
unfoldable pub out_of_range : (least : ℕ) → Wire → Result Bool
unfolding float_limit
out_of_range least (Wire.int z) =
    if leb float_limit (magnitude z) then raise overflow_error else return (ltb_ℤ z (pos least))
out_of_range zero (Wire.float (finite num den)) = return (ltb_ℤ num (pos zero))
out_of_range (suc k) (Wire.float (finite num den)) = return (ltb_ℤ num (pos ((den + 1) * suc k)))
out_of_range least _ = return true

abbrev is_real_number : Wire → Bool
is_real_number (Wire.int z) = true
is_real_number (Wire.float f) = true
is_real_number _ = false

-- `retry_interval_s` (at least 0) and `backoff_rate` (at least 1).
abbrev check_number : (least : ℕ) → Option Wire → Text → Result (List Diagnostic)
check_number least none id = return []
check_number least (some w) id =
    if is_real_number w
    then (do bad ← out_of_range least w; return (flag bad (err retry_field_range id)))
    else return (err retry_field_type id ∷ [])

abbrev pub check_attempts : Option Wire → Text → List Diagnostic
check_attempts none id = []
check_attempts (some (Wire.int z)) id = flag (ltb_ℤ z (pos 1)) (err retry_field_range id)
check_attempts (some _) id = err retry_field_type id ∷ []

abbrev check_retry : Ann → Text → Result (List Diagnostic)
check_retry a id = do
  intervals ← check_number 0 a.retry_interval_s id
  rates ← check_number 1 a.backoff_rate id
  return (check_attempts a.max_attempts id ++ (intervals ++ rates))

unfoldable pub check_ann_retry_fields : Info → Result (List Diagnostic)
unfolding out_of_range
check_ann_retry_fields i = elim i.ann [ none ↦ return [] | some a ↦ check_retry a i.id ]
