-- ===== src/Base/Text/Ops.antt =====
-- More of Rust's `str`: comparison without case, suffixes, joins, characters and number parsing.
use Prim.Native.Nat.{ℕ, ◌+◌, ◌*◌, ◌-◌}
use mathlib.Core.Bool.{Bool, true, false, ◌&&◌, ◌||◌}
use mathlib.Core.Option.{Option, none, some}
use mathlib.Core.List.{List, [], ◌∷◌, ◌++◌, map}
use sdkwork_web_framework.Base.Tests.{leb, ◌==◌, if◌then◌else◌}
use sdkwork_web_framework.Base.Lists.{is_empty}
use sdkwork_web_framework.Base.Text.{Str, str_eq, to_ascii_lowercase, strip_prefix, trim}

unfoldable pub eq_ignore_ascii_case : Str → Str → Bool
eq_ignore_ascii_case a b = str_eq (to_ascii_lowercase a) (to_ascii_lowercase b)

-- `s.strip_suffix(t)`
unfoldable pub strip_suffix : Str → Str → Option Str
strip_suffix t [] = if is_empty t then some [] else none
strip_suffix t (c ∷ s) = elim (str_eq t (c ∷ s)) [
  | true ↦ some []
  | false ↦ elim (strip_suffix t s) [ none ↦ none | some front ↦ some (c ∷ front) ]
]

-- `join(separator)`
unfoldable pub join_with : Str → List Str → Str
join_with separator [] = []
join_with separator (s ∷ []) = s
join_with separator (s ∷ t ∷ r) = s ++ separator ++ join_with separator (t ∷ r)

-- `s.find(t)` with the two slices around the occurrence
unfoldable pub split_once_text : Str → Str → Option (Str × Str)
split_once_text t [] = if is_empty t then some ([], []) else none
split_once_text t (c ∷ s) = elim (strip_prefix t (c ∷ s)) [
  | some rest ↦ some ([], rest)
  | none ↦ elim (split_once_text t s) [ none ↦ none | some (a, b) ↦ some (c ∷ a, b) ]
]

-- what precedes the first character that passes the test
unfoldable pub before_any : (ℕ → Bool) → Str → Str
before_any p [] = []
before_any p (c ∷ s) = let rest = before_any p s in if p c then [] else c ∷ rest

-- `replace(c, d)` for two characters
unfoldable pub replace_char : ℕ → ℕ → Str → Str
replace_char c d s = map (λ x. if x == c then d else x) s

unfoldable pub is_ascii_digit : ℕ → Bool
is_ascii_digit c = leb b'0' c && leb c b'9'

unfoldable pub is_ascii_lowercase : ℕ → Bool
is_ascii_lowercase c = leb b'a' c && leb c b'z'

unfoldable pub is_ascii_hexdigit : ℕ → Bool
unfolding is_ascii_digit
is_ascii_hexdigit c = is_ascii_digit c || (leb b'a' c && leb c b'f') || (leb b'A' c && leb c b'F')

-- `filter(|value| !value.is_empty())` on an optional text
unfoldable pub non_empty : Option Str → Option Str
non_empty none = none
non_empty (some s) = if is_empty s then none else some s

-- `map(str::trim).filter(|value| !value.is_empty())`
unfoldable pub trimmed_non_empty : Option Str → Option Str
unfolding non_empty
trimmed_non_empty none = none
trimmed_non_empty (some s) = non_empty (some (trim s))

-- the digits of a number, from the left, as long as the value fits under the bound
unfoldable pub parse_digits : ℕ → ℕ → Str → Option ℕ
parse_digits bound acc [] = some acc
parse_digits bound acc (c ∷ s) =
    let value = 10 * acc + (c - b'0') in
    let rest = parse_digits bound value s in
    if is_ascii_digit c && leb value bound then rest else none

-- `parse::<uN>()` for the type's largest value: one sign `+` may lead, and digits must follow.
unfoldable pub parse_unsigned : ℕ → Str → Option ℕ
unfolding parse_digits
parse_unsigned bound [] = none
parse_unsigned bound (c ∷ s) =
    if c == b'+'
    then (if is_empty s then none else parse_digits bound 0 s)
    else parse_digits bound 0 (c ∷ s)
