-- ===== src/Prelude.antt =====
-- Shared names, tests on numbers, lists measured by native numbers, and text as bytes.
mod Tests
mod Lists
mod Bytes
pub mod Sort
pub mod Utf8
pub mod LineEnds
pub mod Lines
pub mod Numbers
pub mod Literals
pub mod Chars
unfoldable pub use Tests.*
unfoldable pub use Lists.*
pub use Bytes.{Text, codes, eqb_iff, eqb_refl, starts_with_append, starts_with_split}
unfoldable pub use Bytes.{eqb, starts_with, str_contains}
pub use Prim.Native.Nat.{ℕ, zero, suc, ◌+◌, ◌-◌, ◌*◌, ◌/◌, ◌%◌, ◌^◌, ◌≤◌, ◌<◌, min, max}
pub use Prim.Native.String.{String}
pub use mathlib.Core.Path.{◌≡◌, refl, sym, ap, ◌∙◌, subst, fun_ext}
pub use mathlib.Core.Logic.{◌≢◌, ◌↔◌, ◌⊎◌, inl, inr}
pub use mathlib.Core.Bool.{Bool, true, false, not, ◌&&◌, ◌||◌}
pub use mathlib.Core.Option.{Option, none, some}
pub use mathlib.Core.List.{List, [], ◌∷◌, ◌++◌, map, append-nil, append_assoc}
pub use native.Mathlib.Omega.{arith}
