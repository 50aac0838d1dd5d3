-- ===== src/Prelude.antt =====
-- The names that all modules share: those of the libraries, passed on, and those of the children.
mod Tests
mod Int
mod Maps
mod Lists
pub mod Effects
pub use Tests.*
pub use Int.*
pub use Lists.*
pub use Effects.{
  Exception, null_pointer, illegal_argument, illegal_state, number_format, process_message,
  out_of_fuel, Result, ok, throw, Exec, ◌>>◌,
}
unfoldable pub use Effects.{◌>>=◌, pure, raise, deref, try_catch, gets, modify}
pub use Maps.{Dict, lookup-insert, lookup-delete, dict_laws}
unfoldable pub use Maps.{lookup, insert, delete}
pub use Prim.Native.Nat.{ℕ, zero, suc, ◌+◌, ◌-◌, ◌*◌, ◌/◌, ◌%◌, ◌^◌, ◌≤◌, ◌<◌}
pub use Prim.Native.String.{String}
pub use mathlib.Core.Path.{◌≡◌, refl, sym, ap, ◌∙◌}
pub use mathlib.Core.Logic.{◌≢◌, ◌↔◌, ◌⊎◌, inl, inr}
pub use mathlib.Core.Bool.{Bool, true, false, ◌&&◌, ◌||◌, not}
pub use mathlib.Core.Option.{Option, none, some}
pub use mathlib.Core.List.{List, [], ◌∷◌, ◌++◌, map}
pub use native.Mathlib.Omega.{arith}
pub use text.Mathlib.Text.{◌==◌}
pub use text.Mathlib.TextEquality.{eq_iff}
