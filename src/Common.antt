-- ===== src/Common.antt =====
-- The names that the other modules share: the libraries', passed on, and those of its children.
mod Tests
mod Lists
mod Results
mod Texts
mod Scan
mod Decimal
pub use Tests.*
pub use Lists.*
pub use Results.*
unfoldable pub use Scan.{strip_prefix, take_class, span}
pub use Scan.{
  strip_prefix-append, strip_prefix-eq-some, take_class-append, take_class-eq-some, span-append,
  span-joins, span-AllOf, ◌>>?◌, >>?-eq-some, at_end, at_end-eq-some,
}
unfoldable pub use Decimal.{digits, print_decimal, is_digit, value_from, is_canonical}
pub use Decimal.{
  value_from-print_decimal, print_decimal-AllOf, is_canonical-print_decimal,
  print_decimal-canonical,
}
unfoldable pub use Texts.{
  Text, codes, AllOf, is_solid, text_eq, is_space, trim_start, trim, is_visible_text,
}
pub use Texts.{text_eq_iff, AllOf-append, trim-pad}
pub use mathlib.Core.List.{append_assoc, append-nil}
pub use Prim.Native.Nat.{ℕ, zero, suc, ◌+◌, ◌-◌, ◌*◌, ◌/◌, ◌%◌, ◌^◌, ◌≤◌, ◌<◌, min, max}
pub use Prim.Native.String.{String}
pub use mathlib.Core.Path.{◌≡◌, refl, sym, ap, ◌∙◌, subst}
pub use mathlib.Core.Logic.{◌≢◌, ◌↔◌, ◌⊎◌, inl, inr}
pub use mathlib.Core.Bool.{Bool, true, false, not, ◌&&◌, ◌||◌}
pub use mathlib.Core.Option.{Option, none, some}
pub use mathlib.Core.List.{List, [], ◌∷◌, ◌++◌, map}
pub use native.Mathlib.Omega.{arith}
