-- ===== src/Common.antt =====
-- The names that every module shares: the libraries', passed on, and those of the children
-- (Boolean tests, lists, decidable equality as an instance, Rust's `str` as a list of bytes).
mod Tests
mod Lists
mod Equality
pub mod Text
pub mod Net
pub mod Sort
pub mod Result
pub mod Distinct
pub mod Trim
pub use Tests.*
pub use Lists.*
pub use Equality.*
pub use Prim.Native.Nat.{ℕ, zero, suc, ◌+◌, ◌-◌, ◌*◌, ◌/◌, ◌%◌, ◌^◌, ◌≤◌, ◌<◌}
pub use mathlib.Core.Path.{◌≡◌, refl, sym, ap, ◌∙◌}
pub use mathlib.Core.Logic.{◌≢◌, ◌↔◌, ◌⊎◌, inl, inr}
pub use mathlib.Core.Bool.{Bool, true, false, not, ◌&&◌, ◌||◌}
pub use mathlib.Core.Option.{Option, none, some}
pub use mathlib.Core.List.{List, [], ◌∷◌, ◌++◌, map, Memᴰ}
pub use mathlib.Core.List.Memᴰ.{head, tail}
pub use native.Mathlib.Omega.{arith}
