-- ===== src/Base.antt =====
-- The names that the other modules share: the libraries', passed on, and those of the children:
-- tests, lists, Go strings and Go maps.
pub mod Tests
pub mod Lists
pub mod Strings
pub mod Maps
pub mod Integers
pub mod Options
pub mod Decimal
pub use Integers.{ℤ, pos, negsuc, pos_part, neg_part, difference, ◌+ℤ◌}
pub use Decimal.{decimal-injective, decimal_below, value-decimal}
unfoldable pub use Decimal.{value}
pub use Options.{or_else, map_option, or_else-none, or_else_assoc}
pub use Tests.*
pub use Lists.*
pub use Strings.{Text, bytes, text_eq, text_eqb_iff, is_empty, length-hex_encode}
unfoldable pub use Strings.{text_eqb, hex_encode, decimal}
pub use Maps.{
  Map, Distinct, get-put, get-del, has-put, has-del, length-put, length-del, put-Distinct,
  del-Distinct, has-get, has-of-get, has_nonempty, key-cases, get-append,
}
unfoldable pub use Maps.{get, put, has, del}
pub use Prim.Native.Nat.{ℕ, zero, suc, ◌+◌, ◌-◌, ◌*◌, ◌/◌, ◌%◌, ◌^◌, ◌≤◌, ◌<◌}
pub use mathlib.Core.Path.{◌≡◌, refl, sym, ap, ◌∙◌}
pub use mathlib.Core.Logic.{◌≢◌, ◌↔◌, ◌⊎◌, inl, inr}
pub use mathlib.Core.Bool.{Bool, true, false, not, ◌&&◌, ◌||◌}
pub use mathlib.Core.Option.{Option, none, some}
pub use mathlib.Core.List.{List, [], ◌∷◌, ◌++◌, map, append-nil, append_assoc}
pub use native.Mathlib.Omega.{arith}
