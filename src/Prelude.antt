-- ===== src/Prelude.antt =====
-- The names that every component shares: those of the libraries, passed on, and the C arrays and
-- Boolean tests of the two children. No code of the repository is modelled here.
mod Tests
mod Lists
mod Texts
pub use Tests.*
unfoldable pub use Tests.{table}
unfoldable pub use Texts.{same_text, starts_with, contains, split_at, last_byte}
pub use Lists.*
pub use Texts.*
pub use Prim.Native.Nat.{ℕ, zero, suc, ◌+◌, ◌-◌, ◌*◌, ◌/◌, ◌%◌, ◌^◌, ◌≤◌, ◌<◌}
pub use mathlib.Core.Path.{◌≡◌, refl, sym, ap, ◌∙◌}
pub use mathlib.Core.Logic.{◌≢◌, ◌↔◌, ◌⊎◌, inl, inr}
pub use mathlib.Core.Bool.{Bool, true, false, not, ◌&&◌, ◌||◌}
pub use mathlib.Core.Option.{Option, none, some}
pub use mathlib.Core.List.{List, [], ◌∷◌, ◌++◌, map}
pub use native.Mathlib.Omega.{arith}
