-- ===== src/Base.antt =====
-- The names that the other modules share: the libraries', passed on, and those of its children.
mod Tests
mod Strings
mod Effects
mod Faults
mod Fields
pub use Tests.*
unfoldable pub use Strings.{contains, index_of, trim_start, trim}
pub use Strings.{
  Text, codes, length, take, drop, is_space, ◌===◌, ===_iff, ===-refl, ===-of_eq, ne→===, is_empty,
  some_text, contains-cons, take-length_append, drop-length_append, append_cancel, length-append,
  length-pos, next_index,
}
pub use Effects.*
pub use Faults.*
pub use Fields.{join_fields, read_fields, read_fields-join_fields}
pub use Prim.Native.Nat.{ℕ, zero, suc, ◌+◌, ◌-◌, ◌*◌, ◌/◌, ◌%◌, ◌^◌, ◌≤◌, ◌<◌, min, max}
pub use Prim.Native.String.{String}
pub use mathlib.Core.Path.{◌≡◌, refl, sym, ap, ◌∙◌, subst}
pub use mathlib.Core.Logic.{◌≢◌, ◌↔◌, ◌⊎◌, inl, inr}
pub use mathlib.Core.Bool.{Bool, true, false, not, ◌&&◌, ◌||◌}
pub use mathlib.Core.Option.{Option, none, some}
pub use mathlib.Core.List.{List, [], ◌∷◌, ◌++◌, map}
pub use native.Mathlib.Omega.{arith}
