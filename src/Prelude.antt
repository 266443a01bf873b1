-- ===== src/Prelude.antt =====
-- The names that the other modules share: the libraries', passed on, and those of the children.
mod Tests
mod Lists
mod Maps
mod Int
unfoldable pub use Tests.{str_dec}
pub use Tests.{
  ltb, leb, ◌==◌, if◌then◌else◌, ltb→lt, leb→le, Bool-cases, Option-cases, ite_elim, if_elim,
  str-ne,
}
pub use Lists.*
unfoldable pub use Maps.{lookup, insert, erase}
pub use Maps.{
  lookup-insert, lookup-erase, length-insert-le, length-erase-le, length-erase-lt,
  lookup_of_length-eq-zero, Unique, insert-Unique, erase-Unique, lookup-tail, lookup-head,
}
unfoldable pub use Int.{◌+ℤ◌, ◌-ℤ◌, wrap64}
pub use Int.{
  ℤ, pos, negsuc, pos_part, neg_part, ◌≤ℤ◌, ◌<ℤ◌, ltb_ℤ, int_laws, eq_of_parts, +ℤ_parts, -ℤ_parts,
  wrap64_of-lt, pos-add, neg_part_of-lt, pos_part_of-le, neg_part_of-le, +ℤ_le, -ℤ_le,
}
pub use Prim.Native.Nat.{ℕ, zero, suc, ◌+◌, ◌-◌, ◌*◌, ◌/◌, ◌%◌, ◌^◌, ◌≤◌, ◌<◌, max, min}
pub use Prim.Native.String.{String}
pub use mathlib.Core.Path.{◌≡◌, refl, sym, ap, subst, ◌∙◌}
pub use mathlib.Core.Logic.{◌≢◌, ◌↔◌, ◌⊎◌, inl, inr, ite, if_pos, if_neg}
pub use mathlib.Core.Bool.{Bool, true, false, not, ◌&&◌, ◌||◌}
pub use mathlib.Core.Option.{Option, none, some}
pub use mathlib.Core.List.{List, [], ◌∷◌, ◌++◌, map}
pub use native.Mathlib.Omega.{arith}
unfoldable pub use native.Mathlib.Decide.{dec_lt, dec_le, ℕ_discrete}
