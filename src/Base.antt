-- ===== src/Base.antt =====
-- Names and lemmas that the modules of the library share.
mod Tests
mod Lists
mod Copies
mod Extensional
mod Words
mod Xor
mod Or
mod CStrings
pub use Tests.*
unfoldable pub use Lists.*
pub use Copies.*
pub use Extensional.*
pub use Words.*
pub use Xor.*
pub use Or.*
unfoldable pub use CStrings.*
pub use Prim.Native.Nat.{ℕ, zero, suc, ◌+◌, ◌-◌, ◌*◌, ◌/◌, ◌%◌, ◌^◌, ◌≤◌, ◌<◌}
pub use mathlib.Core.Path.{◌≡◌, refl, sym, ap, ap₂, ◌∙◌, ◌≡⟨◌⟩◌, ◌∎}
pub use mathlib.Core.Logic.{◌≢◌, ◌⊎◌, inl, inr, ◌↔◌}
pub use mathlib.Core.Bool.{Bool, true, false, not, ◌&&◌, ◌||◌}
pub use mathlib.Core.Option.{Option, none, some}
pub use mathlib.Core.List.{List, [], ◌∷◌, ◌++◌, append-nil, append_assoc}
pub use native.Mathlib.Omega.{arith}
