-- ===== src/Base.antt =====
-- The names that all modules share: the libraries', passed on, and those of the children: Boolean
-- tests, lists over the native numbers, results, and Rust's `str` over code points.
mod Tests
mod Lists
pub mod Maybe
pub mod Results
mod Strings
pub use Tests.*
pub use Lists.*
unfoldable pub use Strings.{
  strip_prefix, splitn_from, splitn, ends_with_char, Text, codes, eq_text, is_empty, contains_char,
  starts_with, contains, is_whitespace, trim_start_by, trim_end_by, trim, split_from, split, join,
  replace_char, strip_cr, lines_from, lines, is_digit, digits_from, parse_uint,
}
pub use Strings.Laws.{
  split-nil, split-cons_sep, eq_text→≡, eq_text_self, eq_text_iff, contains_char-eq-false_iff,
  split_from-append, split-append, split_from_of_lacks, trim_end_by_parts, trim_start_by_parts,
  trim_start_by-cons, trim_end_by-concat, is_empty-concat, ne_of_eq_text, eq_text_of_ne,
  ne_nil_of_is_empty, is_empty_of_ne_nil,
}
pub use Strings.Trim.{
  trim_idem, trim-strip_cr, trim-newline, strip_cr_of_lacks, All-trim, All-trim_start_by,
  All-trim_end_by,
}
pub use Strings.Lines.{
  All-lines, lines-lack_newline, lines-append, lines_line, map-trim-lines-finish,
}
pub use Results.{Result-cases, Result, ok, err, map_err, ok_or, to_option, >>=-eq-ok}
pub use Prim.Native.Nat.{ℕ, zero, suc, ◌+◌, ◌-◌, ◌*◌, ◌/◌, ◌%◌, ◌^◌, ◌≤◌, ◌<◌}
pub use Prim.Native.String.{String}
pub use mathlib.Core.Path.{◌≡◌, refl, sym, ap, ap₂, ◌∙◌, subst}
pub use mathlib.Core.Logic.{◌≢◌, ◌↔◌, ◌⊎◌, inl, inr}
pub use mathlib.Core.Bool.{Bool, true, false, ◌&&◌, ◌||◌, not}
pub use mathlib.Core.Option.{Option, none, some}
pub use mathlib.Core.List.{
  List, [], ◌∷◌, ◌++◌, map, reverse, append-nil, append_assoc, map-append, reverse-append,
}
pub use native.Mathlib.Omega.{arith}
