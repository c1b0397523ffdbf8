-- ===== src/Base/Strings.antt =====
-- Rust's `str` and `String` as lists of code points, with the methods of the standard library that
-- the program calls. A byte length stands for a code-point count only where the text is ASCII.
pub mod Laws
pub mod Trim
pub mod Lines
use Prim.Native.Nat.{ℕ, zero, suc, ◌+◌, ◌-◌, ◌*◌, ◌≤◌}
use Prim.Native.Char.{code}
use Prim.Native.String.{String}
use mathlib.Core.Path.{◌≡◌}
use mathlib.Core.Bool.{Bool, true, false, ◌&&◌, ◌||◌, not}
use mathlib.Core.Option.{Option, none, some}
use mathlib.Core.List.{List, [], ◌∷◌, ◌++◌, reverse}
use backr.Base.Tests.{ltb, leb, ◌==◌, if◌then◌else◌}

abbrev pub Text : Type 0
Text = List ℕ

-- The code points of a literal.
abbrev pub codes : String → Text
codes String.[] = []
codes (String.◌∷◌ c s) = code c ∷ codes s

-- `a == b`
unfoldable pub eq_text : Text → Text → Bool
eq_text [] [] = true
eq_text [] (_ ∷ _) = false
eq_text (_ ∷ _) [] = false
eq_text (a ∷ s) (b ∷ t) = if a == b then eq_text s t else false

-- `s.is_empty()`
abbrev pub is_empty : Text → Bool
is_empty [] = true
is_empty (_ ∷ _) = false

-- `s.contains(c)`
unfoldable pub contains_char : ℕ → Text → Bool
contains_char c [] = false
contains_char c (a ∷ s) = if a == c then true else contains_char c s

-- `s.starts_with(p)`
unfoldable pub starts_with : Text → Text → Bool
starts_with [] s = true
starts_with (_ ∷ _) [] = false
starts_with (a ∷ p) (b ∷ s) = if a == b then starts_with p s else false

-- `s.contains(p)` for a text `p`
unfoldable pub contains : Text → Text → Bool
contains p [] = starts_with p []
contains p (a ∷ s) = if starts_with p (a ∷ s) then true else contains p s

-- `char::is_whitespace`: the code points with the property White_Space.
unfoldable pub is_whitespace : ℕ → Bool
is_whitespace c =
    (leb 9 c && leb c 13)
    || (c == 32
        || (c == 0x85
            || (c == 0xa0
                || (c == 0x1680
                    || ((leb 0x2000 c && leb c 0x200a)
                        || (c == 0x2028
                            || (c == 0x2029 || (c == 0x202f || (c == 0x205f || c == 0x3000)))))))))

-- `s.trim_start_matches(p)` for a test on characters
unfoldable pub trim_start_by : (ℕ → Bool) → Text → Text
trim_start_by p [] = []
trim_start_by p (c ∷ s) = if p c then trim_start_by p s else c ∷ s

-- `s.trim_end_matches(p)`
unfoldable pub trim_end_by : (ℕ → Bool) → Text → Text
trim_end_by p [] = []
trim_end_by p (c ∷ s) = let rest = trim_end_by p s in if is_empty rest && p c then [] else c ∷ rest

-- `s.trim()`
unfoldable pub trim : Text → Text
trim s = trim_end_by is_whitespace (trim_start_by is_whitespace s)

-- `s.split(sep)`: at least one piece, which holds no separator.
unfoldable pub split_from : ℕ → Text → Text → List Text
split_from sep cur [] = cur ∷ []
split_from sep cur (c ∷ s) = elim (c == sep) [
  | true ↦ cur ∷ split_from sep [] s
  | false ↦ split_from sep (cur ++ c ∷ []) s
]

abbrev pub split : ℕ → Text → List Text
split sep s = split_from sep [] s

-- `pieces.join(sep)`
unfoldable pub join : Text → List Text → Text
join sep [] = []
join sep (s ∷ []) = s
join sep (s ∷ (t ∷ ts)) = s ++ (sep ++ join sep (t ∷ ts))

-- `s.replace(c, r)` for one character
unfoldable pub replace_char : ℕ → Text → Text → Text
replace_char c r [] = []
replace_char c r (a ∷ s) = if a == c then r ++ replace_char c r s else a ∷ replace_char c r s

-- `s.strip_suffix('\r')`, or the text as it is
unfoldable pub strip_cr : Text → Text
strip_cr [] = []
strip_cr (c ∷ []) = if c == 13 then [] else c ∷ []
strip_cr (c ∷ (d ∷ s)) = c ∷ strip_cr (d ∷ s)

-- `s.ends_with(c)`
unfoldable pub ends_with_char : ℕ → Text → Bool
ends_with_char c [] = false
ends_with_char c (a ∷ []) = a == c
ends_with_char c (a ∷ (b ∷ s)) = ends_with_char c (b ∷ s)

-- `s.strip_prefix(p)`
unfoldable pub strip_prefix : Text → Text → Option Text
strip_prefix [] s = some s
strip_prefix (_ ∷ _) [] = none
strip_prefix (a ∷ p) (b ∷ s) = if a == b then strip_prefix p s else none

-- `s.splitn(n, sep)`: at most `n` pieces, the last one with the separators that are left in it.
unfoldable pub splitn_from : ℕ → ℕ → Text → Text → List Text
splitn_from zero sep cur s = []
splitn_from (suc zero) sep cur s = (cur ++ s) ∷ []
splitn_from (suc (suc n)) sep cur [] = cur ∷ []
splitn_from (suc (suc n)) sep cur (c ∷ s) = elim (c == sep) [
  | true ↦ cur ∷ splitn_from (suc n) sep [] s
  | false ↦ splitn_from (suc (suc n)) sep (cur ++ c ∷ []) s
]

abbrev pub splitn : ℕ → ℕ → Text → List Text
splitn n sep s = splitn_from n sep [] s

-- `s.lines()`: a line ends at "\n" or "\r\n"; an unfinished last line is kept as it is, and no empty
-- line follows the last "\n".
unfoldable pub lines_from : Text → Text → List Text
lines_from [] [] = []
lines_from (c ∷ cur) [] = (c ∷ cur) ∷ []
lines_from cur (c ∷ s) = elim (c == 10) [
  | true ↦ strip_cr cur ∷ lines_from [] s
  | false ↦ lines_from (cur ++ c ∷ []) s
]

abbrev pub lines : Text → List Text
lines s = lines_from [] s

-- `str::parse` for an unsigned integer of at most `max`: an optional "+", then digits.
abbrev pub is_digit : ℕ → Bool
is_digit c = leb b'0' c && leb c b'9'

unfoldable pub digits_from : ℕ → ℕ → Text → Option ℕ
digits_from max n [] = some n
digits_from max n (c ∷ s) =
    if is_digit c
    then (let m = n * 10 + (c - b'0') in if ltb max m then none else digits_from max m s)
    else none

unfoldable pub parse_uint : ℕ → Text → Option ℕ
unfolding digits_from
parse_uint max [] = none
parse_uint max (c ∷ s) =
    if c == b'+'
    then (if is_empty s then none else digits_from max 0 s)
    else digits_from max 0 (c ∷ s)
