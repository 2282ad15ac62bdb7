-- ===== src/Prelude.antt =====
-- The names that every module shares: the libraries', and those of the child modules.
mod Tests
mod Lists
mod Strings
mod Int
mod Errors
pub use Tests.*
pub use Lists.*
pub use Strings.{Text, text, text_eq_iff, text_eq_self}
unfoldable pub use Strings.{text_eq, has_text, get, decimal}
pub use Int.{ℤ, pos, negsuc, pos_part, neg_part, sub_ℕ, ◌≤ℤ◌, ltb_ℤ, max_ℤ, +ℤ_parts, mul_nonneg}
unfoldable pub use Int.{◌+ℤ◌, ◌*ℤ◌}
pub use Errors.*
pub use Prim.Native.Nat.{ℕ, zero, suc, ◌+◌, ◌-◌, ◌*◌, ◌^◌, ◌≤◌, ◌<◌}
pub use mathlib.Core.Path.{◌≡◌, refl, sym, ap, ◌∙◌}
pub use mathlib.Core.Logic.{◌≢◌, ◌↔◌, ◌⊎◌, inl, inr}
pub use mathlib.Core.Bool.{Bool, true, false, not, ◌&&◌, ◌||◌}
pub use mathlib.Core.Option.{Option, none, some}
pub use mathlib.Core.List.{List, [], ◌∷◌, ◌++◌, map, append_assoc, append-nil}
pub use native.Mathlib.Omega.{arith}
