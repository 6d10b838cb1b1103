-- ===== src/Common.antt =====
-- Names that every module shares: the libraries' logic and numbers passed on, Boolean tests,
-- lists and signed durations over the native numbers, dictionaries in insertion order, the
-- result of code that may raise, texts, and pages.
mod Tests
mod Lists
mod Int
mod Dict
mod Raise
mod Texts
mod Pages
pub use Tests.*
pub use Lists.*
unfoldable pub use Int.*
pub use Dict.*
pub use Raise.*
pub use Texts.*
pub use Pages.*
pub use Prim.Native.Nat.{ℕ, zero, suc, ◌+◌, ◌-◌, ◌*◌, ◌/◌, ◌%◌, ◌^◌, ◌≤◌, ◌<◌, min, max}
pub use mathlib.Core.Path.{◌≡◌, refl, sym, ap, ◌∙◌}
pub use mathlib.Core.Logic.{◌≢◌, ◌↔◌, ◌⊎◌, inl, inr}
pub use mathlib.Core.Bool.{Bool, true, false, not, ◌&&◌, ◌||◌}
pub use mathlib.Core.Option.{Option, none, some}
pub use mathlib.Core.List.{List, [], ◌∷◌, ◌++◌, map}
pub use native.Mathlib.Omega.{arith}
