-- ===== src/Common.antt =====
-- Names that every module shares: the libraries' names passed on, Boolean tests on the native
-- numbers, arrays as functions, and 16-bit words.
mod Tests
pub mod Arrays
pub mod Lists
pub mod Int
pub mod Options
pub mod Search
pub mod Bits
pub mod CStrings
pub mod Text
pub mod Decimal
pub mod Visits
pub use Tests.*
pub use Prim.Native.Nat.{ℕ, zero, suc, ◌+◌, ◌-◌, ◌*◌, ◌/◌, ◌%◌, ◌^◌, ◌≤◌, ◌<◌, min, bit_and, bit_or}
pub use mathlib.Core.Path.{◌≡◌, refl, sym, ap, ap₂, subst, fun_ext, ◌∙◌}
pub use mathlib.Core.Logic.{◌≢◌, ◌↔◌, ◌⊎◌, inl, inr}
pub use mathlib.Core.Bool.{Bool, true, false, not, ◌&&◌, ◌||◌}
pub use mathlib.Core.Option.{Option, none, some}
pub use mathlib.Core.List.{List, [], ◌∷◌, ◌++◌, map, append-nil, append_assoc}
pub use native.Mathlib.Omega.{arith}
