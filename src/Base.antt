-- ===== src/Base.antt =====
-- The names that the other modules share: the libraries', passed on, and those of the children.
pub mod Tests
pub mod Lists
pub mod Bits
pub mod Int
pub mod Maps
pub mod Sets
pub mod Sorting
pub use Tests.{
  ltb, leb, nat_beq, nat_beq_iff, if◌then◌else◌, ltb→lt, lt→ltb, le→ltb, Bool-cases, if_intro,
  Option-cases, Comparable, ◌==◌, nat_eq, bytes_eq, Bytes, IsByte, bytes_beq_iff, ==_refl,
}
unfoldable pub use Tests.{bytes_beq}
pub use Lists.{
  length, get_elem?, get_or, take, drop, length-append, length-take, length-drop, take-append-drop,
  take-append_le, drop-append_le, take-append_length, take_short, drop-append_length,
  get_or-append_last, drop-eq-cons, drop-drop, List-cases, all, All, All-append, All-take, All-drop,
}
pub use Prim.Native.Nat.{
  ℕ, zero, suc, ◌+◌, ◌-◌, ◌*◌, ◌/◌, ◌%◌, ◌^◌, ◌≤◌, ◌<◌, min, max, bit_and, bit_or, bit_xor,
}
pub use mathlib.Core.Path.{◌≡◌, refl, sym, ap, ap₂, ◌∙◌, subst, fun_ext}
pub use mathlib.Core.Logic.{◌≢◌, ◌↔◌, ◌⊎◌, inl, inr}
pub use mathlib.Core.Bool.{Bool, true, false, not, ◌&&◌, ◌||◌}
pub use mathlib.Core.Option.{Option, none, some}
pub use mathlib.Core.List.{List, [], ◌∷◌, ◌++◌, map, append-nil, append_assoc}
pub use native.Mathlib.Omega.{arith}
