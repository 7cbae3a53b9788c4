-- ===== src/Prelude.antt =====
-- The names that the other modules share: the libraries', passed on, and those of the children.
mod Tests
mod Lists
mod Words
mod Memory
pub mod Bits
pub use Tests.*
pub use Lists.*
pub use Words.*
unfoldable pub use Memory.{load, same_bytes}
pub use Memory.{
  >>=_assoc, Bytes, IsByte, AreBytes, ◌>>=◌, load-eq-take, load-short, load-append, Post, bind-Post,
  if-Post, if_holds,
}
pub use Prim.Native.Nat.{ℕ, zero, suc, ◌+◌, ◌-◌, ◌*◌, ◌/◌, ◌%◌, ◌^◌, ◌≤◌, ◌<◌, min}
pub use mathlib.Core.Path.{◌≡◌, refl, sym, ap, ap₂, ◌∙◌, subst, subst₂}
pub use mathlib.Core.Logic.{◌≢◌, ◌↔◌, ◌⊎◌, inl, inr}
pub use mathlib.Core.Bool.{Bool, true, false, not, ◌&&◌, ◌||◌}
pub use mathlib.Core.Option.{Option, none, some}
pub use mathlib.Core.List.{map, List, [], ◌∷◌, ◌++◌, append-nil, append_assoc, reverse}
pub use native.Mathlib.Omega.{arith}
