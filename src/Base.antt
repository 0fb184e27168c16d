-- ===== src/Base.antt =====
-- The names that all parts share: the libraries', passed on, and those of the children.
mod Tests
mod Lists
mod Text
mod Maps
mod Utf8
mod Decimal
pub use Tests.*
pub use Lists.*
pub use Text.*
pub use Maps.*
pub use Utf8.*
pub use Decimal.*
unfoldable pub use Text.{starts_with, until, split, join, second_part}
unfoldable pub use Maps.{lookup, insert, remove}
unfoldable pub use Utf8.{is_utf8, trim}
unfoldable pub use Decimal.{to_text}
pub use Prim.Native.Nat.{ℕ, zero, suc, ◌+◌, ◌-◌, ◌*◌, ◌/◌, ◌%◌, ◌^◌, ◌≤◌, ◌<◌}
pub use Prim.Native.String.{String}
pub use mathlib.Core.Path.{◌≡◌, refl, sym, ap, subst, subst₂, ◌∙◌}
pub use mathlib.Core.Logic.{◌≢◌, ◌↔◌, ◌⊎◌, inl, inr}
pub use mathlib.Core.Bool.{Bool, true, false, not, ◌&&◌, ◌||◌}
pub use mathlib.Core.Option.{Option, none, some}
pub use mathlib.Core.List.{List, [], ◌∷◌, ◌++◌, map, append-nil, append_assoc}
pub use native.Mathlib.Omega.{arith}
