-- ===== src/Prelude/Strings.antt =====
-- A Python `str` is the list of its code points. Equality is decided point by point.
use Prim.Native.Nat.{ℕ, zero, suc, ◌+◌, ◌/◌, ◌%◌}
use Prim.Native.Char.{code}
use Prim.Native.String.{String}
use mathlib.Core.Path.{◌≡◌, refl}
use mathlib.Core.Logic.{◌↔◌}
use mathlib.Core.Bool.{Bool, true, false, ◌&&◌, ◌||◌}
use mathlib.Core.List.{List, [], ◌∷◌}
use mathlib.Core.Option.{Option, none, some}
use native.Mathlib.Omega.{arith}
use julep.Prelude.Tests.{◌==◌, ltb, if◌then◌else◌}

abbrev pub Text : Type 0
Text = List ℕ

-- The code points of a literal.
abbrev pub text : String → Text
text String.[] = []
text (String.◌∷◌ c s) = code c ∷ text s

unfoldable pub text_eq : Text → Text → Bool
text_eq [] [] = true
text_eq [] (b ∷ y) = false
text_eq (a ∷ x) [] = false
text_eq (a ∷ x) (b ∷ y) = a == b && text_eq x y

pub text_eq_iff : (x y : Text) → (text_eq x y ≡ true) ↔ (x ≡ y)
unfolding text_eq
text_eq_iff [] [] = ground arith
text_eq_iff [] (b ∷ y) = ground arith
text_eq_iff (a ∷ x) [] = ground arith
text_eq_iff (a ∷ x) (b ∷ y) = ground (arith, text_eq_iff x y)

pub text_eq_self : (x : Text) → text_eq x x ≡ true
text_eq_self x = (text_eq_iff x x).1 refl

-- `t in texts`
unfoldable pub has_text : Text → List Text → Bool
has_text t [] = false
has_text t (x ∷ xs) = text_eq x t || has_text t xs

-- `d.get(k)` on a dict with text keys, whose entries are listed once each.
unfoldable pub get {ℓ} : {V : Type ℓ} → Text → List (Text × V) → Option V
get k [] = none
get k ((j, v) ∷ d) = if text_eq j k then some v else get k d

unfoldable digits : (fuel n : ℕ) → Text → Text
digits zero n out = out
digits (suc fuel) n out =
    let more = digits fuel (n / 10) ((48 + n % 10) ∷ out) in
    if ltb n 10 then (48 + n) ∷ out else more

-- `str(n)`: one division for each digit, so `n + 1` are enough.
unfoldable pub decimal : ℕ → Text
unfolding digits
decimal n = digits (suc n) n []
