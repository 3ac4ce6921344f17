-- ===== src/Prelude.antt =====
-- Names that the other modules share: the libraries', passed on, and those of the children.
mod Tests
mod Lists
mod Texts
pub mod Int
pub use Tests.*
pub use Lists.*
pub use Texts.{Bytes, codes, same_text_iff, text_less_irrefl, text_less_trans, text_less_connex}
unfoldable pub use Texts.{same_text, text_less}
pub use Prim.Native.Nat.{ℕ, zero, suc, ◌+◌, ◌-◌, ◌*◌, ◌/◌, ◌%◌, ◌^◌, ◌≤◌, ◌<◌}
pub use mathlib.Core.Path.{◌≡◌, refl, sym, ap, ◌∙◌}
pub use mathlib.Core.Logic.{◌≢◌, ◌↔◌, ◌⊎◌, inl, inr}
pub use mathlib.Core.Bool.{Bool, true, false, not, ◌&&◌, ◌||◌, false≢true}
pub use mathlib.Core.Option.{Option, none, some}
pub use mathlib.Core.List.{List, [], ◌∷◌, ◌++◌, map, append-nil, append_assoc}
pub use native.Mathlib.Omega.{arith}
