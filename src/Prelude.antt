-- ===== src/Prelude.antt =====
-- Names that the other modules share: the libraries', passed on, and those of the children.
mod Tests
mod Fallible
mod Lists
mod Strings
mod Texts
pub use Tests.*
pub use Fallible.*
pub use Lists.*
pub use Strings.{Text, codes, take, drop}
pub use Texts.{
  text_eq_refl, text_eq-true, text_eq-ne, text_same_or_ne, text_lt_irrefl, text_lt_trans,
  text_lt-total,
}
unfoldable pub use Texts.{text_lt}
unfoldable pub use Strings.{text_eq, rfind}
pub use Prim.Native.Nat.{ℕ, zero, suc, ◌+◌, ◌-◌, ◌*◌, ◌/◌, ◌%◌, ◌^◌, ◌≤◌, ◌<◌, min, max}
pub use Prim.Native.Nat.{bit_and, bit_or, bit_xor}
pub use mathlib.Core.Path.{◌≡◌, refl, sym, ap, ap₂, ◌∙◌, subst, ◌≡⟨◌⟩◌, ◌∎}
pub use mathlib.Core.Logic.{◌≢◌, ◌↔◌, ◌⊎◌, inl, inr, ⊎_elim}
pub use mathlib.Core.Bool.{Bool, true, false, not, ◌&&◌, ◌||◌}
pub use mathlib.Core.Option.{Option, none, some}
pub use mathlib.Core.List.{List, [], ◌∷◌, ◌++◌, map}
pub use native.Mathlib.Omega.{arith}
