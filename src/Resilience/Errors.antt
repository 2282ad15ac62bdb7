-- ===== src/Resilience/Errors.antt =====
-- The error taxonomy of julep/resilience.py. Exceptions are objects that refer to each other, so
-- they live in a heap and are named by their addresses; the references may form cycles.
pub mod Reach
pub mod Chain
pub mod Classify
use julep.Prelude.{
  ℕ, zero, suc, ◌+◌, Text, text, Bool, true, false, ◌&&◌, ◌||◌, ◌==◌, ℤ, pos, negsuc, any, Option,
  none, some, List, [], ◌∷◌, ◌++◌, map, if◌then◌else◌,
}

pub data ErrorClass : Type 0 where
  transient timeout config model_behavior : ErrorClass

abbrev transient_status : List ℕ
transient_status = 408 ∷ 409 ∷ 425 ∷ 429 ∷ 500 ∷ 502 ∷ 503 ∷ 504 ∷ 520 ∷ 529 ∷ []

abbrev config_status : List ℕ
config_status = 400 ∷ 401 ∷ 403 ∷ 404 ∷ 422 ∷ []

abbrev auth_status : List ℕ
auth_status = 401 ∷ 403 ∷ []

abbrev auth_hints : List Text
auth_hints =
    text "api key"
    ∷ text "api_key"
    ∷ text "authentication"
    ∷ text "unauthorized"
    ∷ text "permission"
    ∷ []

abbrev config_hints : List Text
config_hints =
    auth_hints ++ (text "model not found" ∷ text "no such model" ∷ text "invalid request" ∷ [])

abbrev timeout_hints : List Text
timeout_hints = text "timed out" ∷ text "timeout" ∷ []

-- What the taxonomy reads of an exception object. An attribute is `none` where it is missing or no
-- `int`; `response` is `none` where there is none. `message` is `str(exc)`.
pub record Exc : Type 0 where
  pub status_code : Option ℤ
  pub http_status : Option ℤ
  pub status : Option ℤ
  pub code : Option ℤ
  pub response : Option (Option ℤ)
  pub message : Text
  pub is_timeout : Bool
  pub cause : Option ℕ
  pub context : Option ℕ

-- The exception objects, at the addresses below `size`.
pub record Heap : Type 0 where
  pub size : ℕ
  pub at : ℕ → Exc

abbrev first_of : List (Option ℤ) → Option (Option ℤ) → Option ℤ
first_of (some s ∷ rest) response = some s
first_of (none ∷ rest) response = first_of rest response
first_of [] none = none
first_of [] (some s) = s

unfoldable pub status_of : Exc → Option ℤ
status_of e = first_of (e.status_code ∷ e.http_status ∷ e.status ∷ e.code ∷ []) e.response

-- `status in {...}`
abbrev pub in_status : List ℕ → Option ℤ → Bool
in_status ss (some (pos n)) = any (λ s. s == n) ss
in_status ss _ = false

abbrev starts_with : Text → Text → Bool
starts_with [] y = true
starts_with (a ∷ x) [] = false
starts_with (a ∷ x) (b ∷ y) = a == b && starts_with x y

-- `hint in message`
abbrev pub contains : Text → Text → Bool
contains hint [] = starts_with hint []
contains hint (c ∷ y) = starts_with hint (c ∷ y) || contains hint y

-- `id(x) in seen`
unfoldable pub has_id : ℕ → List ℕ → Bool
has_id a [] = false
has_id a (x ∷ xs) = x == a || has_id a xs

-- The loop of `_chain`, with the top of the stack first. Out of fuel is `none`.
unfoldable pub chain_loop :
    ℕ → (ℕ → Exc) → (stack : List (Option ℕ)) → (seen out : List ℕ) → Option (List ℕ)
unfolding has_id
chain_loop zero at [] seen out = some out
chain_loop zero at (x ∷ stack) seen out = none
chain_loop (suc f) at [] seen out = some out
chain_loop (suc f) at (none ∷ stack) seen out = chain_loop f at stack seen out
chain_loop (suc f) at (some a ∷ stack) seen out = elim (has_id a seen) [
  | true ↦ chain_loop f at stack seen out
  | false ↦ chain_loop f at ((at a).context ∷ (at a).cause ∷ stack) (a ∷ seen) (out ++ (a ∷ []))
]

-- Each object is entered once and pushes two, so this fuel is enough.
unfoldable pub chain : Heap → ℕ → Option (List ℕ)
unfolding chain_loop
chain h e = chain_loop (suc (h.size + h.size)) h.at (some e ∷ []) [] []

-- `lower` is `str.lower`.
module _ (lower : Text → Text) where
  abbrev pub hinted_by : List Text → Exc → Bool
  hinted_by hints e = any (λ hint. contains hint (lower e.message)) hints

  -- `_is_auth_error`, of one exception
  unfoldable pub is_auth_link : Exc → Bool
  unfolding status_of
  is_auth_link e = in_status auth_status (status_of e) || hinted_by auth_hints e

  abbrev by_message : Exc → ErrorClass
  by_message e =
      if hinted_by config_hints e
      then config
      else if hinted_by timeout_hints e
      then timeout
      else transient

  -- The verdict on the top exception alone.
  unfoldable pub own_class : Exc → ErrorClass
  unfolding status_of
  own_class e =
      if e.is_timeout
      then timeout
      else if in_status config_status (status_of e)
      then config
      else if in_status transient_status (status_of e)
      then transient
      else by_message e

  unfoldable pub any_auth : (ℕ → Exc) → List ℕ → Bool
  unfolding is_auth_link
  any_auth at [] = false
  any_auth at (a ∷ links) = is_auth_link (at a) || any_auth at links

  unfoldable pub is_auth_error : Heap → ℕ → Option Bool
  unfolding chain any_auth
  is_auth_error h e = elim (chain h e) [ none ↦ none | some links ↦ some (any_auth h.at links) ]

  unfoldable pub classify_error : Heap → ℕ → Option ErrorClass
  unfolding is_auth_error own_class
  classify_error h e = elim (is_auth_error h e) [
    | none ↦ none
    | some true ↦ some config
    | some false ↦ some (own_class (h.at e))
  ]
