-- ===== src/Prelude.antt =====
-- The names that the modules of this library share: those of the libraries, passed on, Boolean
-- tests, lists over the native numbers, results of code that may fault, equality of keys and
-- association lists.
mod Tests
mod Lists
mod Runs
mod Keys
pub mod Int
pub mod Assoc
pub mod Words
pub use Tests.*
pub use Lists.*
unfoldable pub use Runs.{Leaves}
pub use Runs.{
  Exec, ok, overrun, thrown, out_of_fuel, ◌>>=◌, if-same, Leaves-if, Leaves->>=, Leaves-then,
  Leaves-ok, Leaves-map, Leaves-weaken, Leaves-any, bind_ok, ok_injective,
}
unfoldable pub use Keys.{bytes_beq}
pub use Keys.{Eq, ◌=?◌, Bytes, bytes_beq_iff, nat_key, bytes_key}
pub use Prim.Native.Nat.{ℕ, zero, suc, ◌+◌, ◌-◌, ◌*◌, ◌/◌, ◌%◌, ◌^◌, ◌≤◌, ◌<◌, min}
pub use mathlib.Core.Path.{◌≡◌, refl, sym, ap, ◌∙◌, ◌≡⟨◌⟩◌, ◌∎}
pub use mathlib.Core.Logic.{◌≢◌, ◌↔◌, ◌⊎◌, inl, inr}
pub use mathlib.Core.Bool.{Bool, true, false, not, ◌&&◌, ◌||◌}
pub use mathlib.Core.Option.{Option, none, some}
pub use mathlib.Core.List.{List, [], ◌∷◌, ◌++◌, map, append-nil, append_assoc}
pub use native.Mathlib.Omega.{arith}
