-- ===== src/Base/Text.antt =====
-- Rust's `str` as the list of its code points, with the operations of the standard library that
-- the program calls: trim, trim_matches, split, starts_with, find, contains, case folding.
pub mod Laws
pub mod Ops
pub mod Split
use Prim.Native.Nat.{ℕ, ◌+◌, ◌-◌, ◌/◌, ◌%◌, zero, suc}
use Prim.Native.Char.{code}
use Prim.Native.String.{String}
use mathlib.Core.Bool.{Bool, true, false, not, ◌&&◌, ◌||◌}
use mathlib.Core.Option.{Option, none, some}
use mathlib.Core.List.{List, [], ◌∷◌, ◌++◌, map}
use sdkwork_web_framework.Base.Tests.{leb, ltb, ◌==◌, if◌then◌else◌, unwrap_or}
use sdkwork_web_framework.Base.Lists.{is_empty}

abbrev pub Str : Type 0
Str = List ℕ

-- The code points of a literal.
unfoldable pub lit : String → Str
lit String.[] = []
lit (String.◌∷◌ c s) = code c ∷ lit s

-- `a == b`
unfoldable pub str_eq : Str → Str → Bool
str_eq [] [] = true
str_eq [] (d ∷ t) = false
str_eq (c ∷ s) [] = false
str_eq (c ∷ s) (d ∷ t) = c == d && str_eq s t

-- `char::is_whitespace`: the code points with the Unicode property White_Space.
unfoldable pub is_whitespace : ℕ → Bool
is_whitespace c =
    (leb 9 c && leb c 13)
    || c == 0x20
    || c == 0x85
    || c == 0xa0
    || c == 0x1680
    || (leb 0x2000 c && leb c 0x200a)
    || c == 0x2028
    || c == 0x2029
    || c == 0x202f
    || c == 0x205f
    || c == 0x3000

unfoldable pub is_slash : ℕ → Bool
is_slash c = c == b'/'

unfoldable pub trim_start : (ℕ → Bool) → Str → Str
trim_start p [] = []
trim_start p (c ∷ s) = let rest = trim_start p s in if p c then rest else c ∷ s

unfoldable pub trim_end : (ℕ → Bool) → Str → Str
trim_end p [] = []
trim_end p (c ∷ s) = let rest = trim_end p s in if is_empty rest && p c then [] else c ∷ rest

-- `trim_matches(p)`
unfoldable pub trim_matches : (ℕ → Bool) → Str → Str
trim_matches p s = trim_end p (trim_start p s)

-- `trim()`
unfoldable pub trim : Str → Str
trim s = trim_matches is_whitespace s

-- `split(d)`: always at least one piece.
unfoldable pub split_from : ℕ → Str → Str → List Str
split_from d cur [] = cur ∷ []
split_from d cur (c ∷ s) =
    let closed = cur ∷ split_from d [] s in
    let longer = split_from d (cur ++ c ∷ []) s in if c == d then closed else longer

unfoldable pub split : ℕ → Str → List Str
split d s = split_from d [] s

-- `join(d)` for a separator of one character
unfoldable pub join : ℕ → List Str → Str
join d [] = []
join d (s ∷ []) = s
join d (s ∷ t ∷ r) = s ++ d ∷ join d (t ∷ r)

-- `starts_with`, and what follows the prefix
unfoldable pub strip_prefix : Str → Str → Option Str
strip_prefix [] s = some s
strip_prefix (p ∷ ps) [] = none
strip_prefix (p ∷ ps) (c ∷ s) = let rest = strip_prefix ps s in if p == c then rest else none

unfoldable pub starts_with : Str → Str → Bool
starts_with [] s = true
starts_with (p ∷ ps) [] = false
starts_with (p ∷ ps) (c ∷ s) = p == c && starts_with ps s

-- `s.ends_with(t)`
unfoldable pub ends_with : Str → Str → Bool
ends_with t [] = is_empty t
ends_with t (c ∷ s) = str_eq t (c ∷ s) || ends_with t s

-- `s.contains(t)`
unfoldable pub contains : Str → Str → Bool
contains t [] = is_empty t
contains t (c ∷ s) = starts_with t (c ∷ s) || contains t s

-- What precedes the first occurrence of a character, and what follows it: `find(d)` with the two
-- slices around the position that it returns.
unfoldable pub split_once : ℕ → Str → Option (Str × Str)
split_once d [] = none
split_once d (c ∷ s) = elim (c == d) [
  | true ↦ some ([], s)
  | false ↦ elim (split_once d s) [ none ↦ none | some (a, b) ↦ some (c ∷ a, b) ]
]

-- `split(d).next().unwrap_or(s)`: what precedes the first occurrence, or the whole text.
unfoldable pub before_first : ℕ → Str → Str
before_first d [] = []
before_first d (c ∷ s) = let rest = before_first d s in if c == d then [] else c ∷ rest

-- `u8::to_ascii_lowercase` and `to_ascii_uppercase`, on a code point
unfoldable pub lower_char : ℕ → ℕ
lower_char c = if leb b'A' c && leb c b'Z' then c + 32 else c

unfoldable pub upper_char : ℕ → ℕ
upper_char c = if leb b'a' c && leb c b'z' then c - 32 else c

unfoldable pub to_ascii_lowercase : Str → Str
to_ascii_lowercase s = map lower_char s

unfoldable pub to_ascii_uppercase : Str → Str
to_ascii_uppercase s = map upper_char s

-- The decimal print of a number: a number has fewer digits than its value and one more.
unfoldable pub digits_from : ℕ → ℕ → Str → Str
digits_from zero n digits = (b'0' + n % 10) ∷ digits
digits_from (suc fuel) n digits = elim (ltb n 10) [
  | true ↦ (b'0' + n) ∷ digits
  | false ↦ digits_from fuel (n / 10) ((b'0' + n % 10) ∷ digits)
]

unfoldable pub decimal : ℕ → Str
unfolding digits_from
decimal n = digits_from n n []
