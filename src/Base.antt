-- ===== src/Base.antt =====
-- The names that the other modules share: the libraries', passed on, and those of the children.
mod Tests
mod Lists
mod Text
mod Assoc
mod Int
mod Outcome
mod Decimal
mod Words
mod Plain
mod Split
pub use Tests.*
pub use Lists.*
unfoldable pub use Text.{
  same, has_prefix, contains, split_on, join, trim_suffix, replace_from, split_after, last_index,
  width_of, trim_words, trim_space, trim_left_byte, flush_word, fields_loop, fields, index_of,
}
pub use Text.*
unfoldable pub use Assoc.{get, put, del}
pub use Assoc.*
pub use Int.*
unfoldable pub use Decimal.{digits_onto, atoi, digits_before, itoa}
pub use Decimal.*
pub use Words.*
pub use Split.*
pub use Plain.*
unfoldable pub use Outcome.{◌>>=◌}
pub use Outcome.*
pub use Prim.Native.Nat.{ℕ, zero, suc, ◌+◌, ◌-◌, ◌*◌, ◌/◌, ◌%◌, ◌^◌, ◌≤◌, ◌<◌}
pub use mathlib.Core.Path.{◌≡◌, refl, sym, ap, subst, ◌∙◌}
pub use mathlib.Core.Logic.{◌≢◌, ◌↔◌, ◌⊎◌, inl, inr}
pub use mathlib.Core.Bool.{Bool, true, false, not, ◌&&◌, ◌||◌}
pub use mathlib.Core.Option.{Option, none, some}
pub use mathlib.Core.List.{List, [], ◌∷◌, ◌++◌, map, append-nil, append_assoc}
pub use native.Mathlib.Omega.{arith}
