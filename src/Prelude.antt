-- ===== src/Prelude.antt =====
-- The names that the other modules share: those of the libraries, passed on, and the helpers of
-- the children (tests, lists, finite maps, fallible results, pools of processes).
mod Tests
mod Lists
mod Maps
mod Results
mod Pool
mod Ints
mod Texts
pub use Tests.*
pub use Lists.{length, take, drop, length-append, take-append, drop-append, All, All-append}
pub use Lists.{contains-delete_all, delete_all_of_not-contains, contains-append}
unfoldable pub use Lists.{contains, delete_all}
pub use Maps.{Dict, lookup-insert, lookup-remove, remove-insert, insert_last}
unfoldable pub use Maps.{lookup, insert, remove}
pub use Results.*
pub use Pool.*
pub use Ints.*
pub use Texts.{cut_after, is_space, trim_right_step, hex_digit, is_hex}
pub use Texts.{
  hex_digit-is_hex, all_chars-hex_text, len-hex_text, cut_prefix-append, cut-append,
  trim_space_same, all_chars-append, all_chars_weaken,
}
unfoldable pub use Texts.{cut_prefix, cut, trim_left, trim_right, trim_space, hex_text, all_chars}
pub use Prim.Native.Nat.{ℕ, zero, suc, ◌+◌, ◌-◌, ◌*◌, ◌/◌, ◌%◌, ◌^◌, ◌≤◌, ◌<◌}
pub use Prim.Native.String.{String}
pub use mathlib.Core.Path.{◌≡◌, refl, sym, ap, ◌∙◌, fun_ext}
pub use mathlib.Core.Logic.{◌≢◌, ◌↔◌, ◌⊎◌, inl, inr}
pub use mathlib.Core.Bool.{Bool, true, false, ◌&&◌, ◌||◌, not}
pub use mathlib.Core.Option.{Option, none, some}
pub use mathlib.Core.List.{List, [], ◌∷◌, ◌++◌, map, append-nil, append_assoc}
pub use native.Mathlib.Omega.{arith}
unfoldable pub use native.Mathlib.Decide.{dec_lt, ℕ_discrete}
pub use text.Mathlib.Text.{◌==◌ as str_eq}
pub use text.Mathlib.TextEquality.{eq_iff}
pub use text.Mathlib.TextPositions.{eq_refl}
