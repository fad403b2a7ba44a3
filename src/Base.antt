-- ===== src/Base.antt =====
-- Names that every module shares: the libraries', passed on, Boolean tests on numbers, and lists
-- over the native numbers.
mod Tests
mod Lists
mod Sorting
mod Tables
pub mod Outcomes
pub use Tests.*
pub use Lists.*
pub use Sorting.*
pub use Tables.*
pub use Prim.Native.Nat.{ℕ, zero, suc, ◌+◌, ◌-◌, ◌*◌, ◌/◌, ◌%◌, ◌^◌, ◌≤◌, ◌<◌}
pub use Prim.Native.String.{String}
pub use native.Mathlib.Omega.{arith}
pub use text.Mathlib.Text.{◌==◌ as text_eq}
pub use text.Mathlib.TextEquality.{eq_iff}
pub use mathlib.Core.Path.{◌≡◌, refl, sym, ◌∙◌, ap, subst}
pub use mathlib.Core.Logic.{◌≢◌, ◌↔◌, ◌⊎◌, inl, inr}
pub use mathlib.Core.Bool.{Bool, true, false, not, ◌&&◌, ◌||◌}
pub use mathlib.Core.Option.{Option, none, some}
pub use mathlib.Core.List.{List, [], ◌∷◌, ◌++◌, map}

pub text_eq_refl : (s : String) → text_eq s s ≡ true
text_eq_refl s = (eq_iff s s).1 refl
