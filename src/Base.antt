-- ===== src/Base.antt =====
-- The names that the other modules share: the libraries' and those of the children.
pub mod Tests
pub mod Lists
pub mod Splice
pub mod Int
pub mod Text
pub mod Items
pub use Tests.*
unfoldable pub use Lists.{splice}
pub use Lists.{
  length, get_or, set, take, drop, replicate, slice, length-append, length-replicate, length-take,
  length-drop, length-set, get_or-set_self, get_or-set_ne, take-length, take-append, drop-append,
  drop-drop, slice-take, drop-take,
}
pub use Splice.*
pub use Int.{ℤ, pos, negsuc, is_neg, to_nat, ltb_ℤ, u32_mod, int_max, sub32, add32}
unfoldable pub use Int.{to_int, be32, from_be32, le32, from_le32, le16, from_le16}
pub use Int.{from_be32-be32, from_le32-le32, from_le16-le16}
pub use Prim.Native.Nat.{ℕ, zero, suc, ◌+◌, ◌-◌, ◌*◌, ◌/◌, ◌%◌, ◌^◌, ◌≤◌, ◌<◌, min}
pub use mathlib.Core.Path.{◌≡◌, refl, sym, ap, ◌∙◌}
pub use mathlib.Core.Logic.{◌≢◌, ◌↔◌, ◌⊎◌, inl, inr}
pub use mathlib.Core.Bool.{Bool, true, false, not, ◌&&◌, ◌||◌}
pub use mathlib.Core.Option.{Option, none, some}
pub use mathlib.Core.List.{List, [], ◌∷◌, ◌++◌, map}
pub use native.Mathlib.Omega.{arith}
