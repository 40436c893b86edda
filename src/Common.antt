-- ===== src/Common.antt =====
-- The names that the other modules share: the libraries', passed on, and those of the children.
pub mod Tests
pub mod Lists
pub mod CString
pub mod Lines
pub mod Hex
pub mod Int
pub mod Scan
pub mod Array
pub mod Keyed
pub mod Chain
pub use Tests.{
  ltb, leb, ◌==◌, if◌then◌else◌, if_true, if_both, if_pair, ltb→lt, lt→ltb, ==_iff, ==_refl,
  Bool-cases, Option-cases, passes_below_sound, ne→==_false, ==_false→ne, ==→eq, leb→le, tests,
}
unfoldable pub use Tests.{passes_below}
pub use Lists.{length, get_elem?, take, drop, replicate, length-append, drop-append}
pub use CString.{Text, codes}
unfoldable pub use CString.{
  text_eq, is_space, is_blank, fgets_lines, skip_while, upper_digit, hex_loop, hex2, hex4, dec_text,
}
pub use Prim.Native.Nat.{ℕ, zero, suc, ◌+◌, ◌-◌, ◌*◌, ◌/◌, ◌%◌, ◌^◌, ◌≤◌, ◌<◌}
pub use mathlib.Core.Path.{◌≡◌, refl, sym, ap, ◌∙◌}
pub use mathlib.Core.Logic.{◌≢◌, ◌↔◌, ◌⊎◌, inl, inr}
pub use mathlib.Core.Bool.{Bool, true, false, ◌&&◌, ◌||◌, not}
pub use mathlib.Core.Option.{Option, none, some}
pub use mathlib.Core.List.{List, [], ◌∷◌, ◌++◌, map}
pub use native.Mathlib.Omega.{arith}
