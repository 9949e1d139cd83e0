-- ===== src/Base.antt =====
-- The names that every other module shares: the libraries', passed on, and those of the children
-- below (Boolean tests, Go's integers, Go's strings, Go's maps, lists). No code of its own.
mod Tests
mod Int
mod Text
mod Lists
pub mod Result
pub mod Time
pub mod Dict
pub mod Chars
pub mod Order
pub mod Range
pub mod Cut
pub use Tests.*
pub use Int.{
  ℤ, pos, negsuc, pos_part, neg_part, sub_ℕ, ◌≤ℤ◌, ◌<ℤ◌, leb_ℤ, ltb_ℤ, eqb_ℤ, u64, InInt64,
  +ℤ_parts, -ℤ_parts, eq_of_parts, ltb_ℤ_true, ltb_ℤ_false, wrap64_lem, int_laws, eqb_ℤ-refl,
}
unfoldable pub use Int.{◌+ℤ◌, ◌-ℤ◌, ◌*ℤ◌, min_ℤ, max_ℤ, half_ℤ, wrap64}
pub use Text.{
  codes, codes_eq, codes_eq_refl, lower, upper, str_eq, eq_iff, eq_refl, ne_false, ◌+s◌, NoSpaces,
  trim_space-NoSpaces,
}
unfoldable pub use Text.{is_space, trim_left, trim_right, trim_space}
pub use Lists.*
pub use Prim.Native.Nat.{ℕ, zero, suc, ◌+◌, ◌-◌, ◌*◌, ◌/◌, ◌%◌, ◌^◌, ◌≤◌, ◌<◌}
pub use Prim.Native.String.{String}
pub use mathlib.Core.Path.{◌≡◌, refl, sym, ap, ◌∙◌, subst}
pub use mathlib.Core.Logic.{◌≢◌, ◌↔◌, ◌⊎◌, inl, inr}
pub use mathlib.Core.Bool.{Bool, true, false, ◌&&◌, ◌||◌, not, false≢true}
pub use mathlib.Core.Option.{Option, none, some}
pub use mathlib.Core.List.{List, [], ◌∷◌, ◌++◌, map}
pub use native.Mathlib.Omega.{arith}
