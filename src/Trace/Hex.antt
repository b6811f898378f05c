-- ===== src/Trace/Hex.antt =====
-- The hexadecimal digits of identifiers and of digests.
use sdkwork_web_framework.Base.{
  ℕ, zero, suc, ◌-◌, ◌≤◌, ◌<◌, ◌/◌, ◌%◌, true, [], ◌∷◌, ◌++◌, all, length, length-append, ◌≡◌, refl,
  arith,
}
use sdkwork_web_framework.Base.Text.{Str}
use sdkwork_web_framework.Base.Text.Ops.{is_ascii_hexdigit, is_ascii_digit}
use sdkwork_web_framework.Hashing.{hash_key_material, hex_digits, hex_digit}
use sdkwork_web_framework.Trace.{take_chars, zeros, pad_hex, hex_of}

pub length-take_chars : (n : ℕ) (s : Str) → length (take_chars n s) ≤ n
unfolding take_chars
length-take_chars zero s = omega arith
length-take_chars (suc n) [] = omega arith
length-take_chars (suc n) (c ∷ s) = omega (arith, length-take_chars n s)

pub length-zeros : (n : ℕ) → length (zeros n) ≡ n
unfolding zeros
length-zeros zero = refl
length-zeros (suc n) = omega (arith, length-zeros n)

pub length-pad_hex : (s : Str) (n : ℕ) → length (pad_hex s n) ≡ n
unfolding pad_hex
length-pad_hex s n = omega (
  arith,
  length-append (take_chars n s) (zeros (n - length (take_chars n s))),
  length-zeros (n - length (take_chars n s)),
  length-take_chars n s,
)

pub all-take_chars :
    (n : ℕ) (s : Str)
    → all is_ascii_hexdigit s ≡ true
    → all is_ascii_hexdigit (take_chars n s) ≡ true
unfolding take_chars
all-take_chars zero s h = refl
all-take_chars (suc n) [] h = refl
all-take_chars (suc n) (c ∷ s) h = ground (arith, all-take_chars n s)

pub all-append :
    (s t : Str)
    → all is_ascii_hexdigit s ≡ true
    → all is_ascii_hexdigit t ≡ true
    → all is_ascii_hexdigit (s ++ t) ≡ true
all-append [] t h k = k
all-append (c ∷ s) t h k = ground (arith, all-append s t)

pub all-zeros : (n : ℕ) → all is_ascii_hexdigit (zeros n) ≡ true
unfolding zeros is_ascii_hexdigit is_ascii_digit
all-zeros zero = refl
all-zeros (suc n) = all-zeros n

pub all-hex_of : (s : Str) → all is_ascii_hexdigit (hex_of s) ≡ true
unfolding hex_of
all-hex_of [] = refl
all-hex_of (c ∷ s) = ground (arith, all-hex_of s)

pub all-pad_hex :
    (s : Str) (n : ℕ) → all is_ascii_hexdigit s ≡ true → all is_ascii_hexdigit (pad_hex s n) ≡ true
unfolding pad_hex
all-pad_hex s n h =
    all-append (take_chars n s) (zeros (n - length (take_chars n s))) (all-take_chars n s h)
      (all-zeros (n - length (take_chars n s)))

pub hex_digit-IsHex : (d : ℕ) → d < 16 → is_ascii_hexdigit (hex_digit d) ≡ true
unfolding hex_digit is_ascii_hexdigit is_ascii_digit
hex_digit-IsHex d h = ground arith

pub all-hex_digits :
    (count n : ℕ) (digits : Str)
    → all is_ascii_hexdigit digits ≡ true
    → all is_ascii_hexdigit (hex_digits count n digits) ≡ true
unfolding hex_digits
all-hex_digits zero n digits h = h
all-hex_digits (suc count) n digits h =
    all-hex_digits count (n / 16) (hex_digit (n % 16) ∷ digits)
      (ground (arith, hex_digit-IsHex (n % 16) (omega arith)))

pub hash_key_material-IsHex : (s : Str) → all is_ascii_hexdigit (hash_key_material s) ≡ true
unfolding hash_key_material
hash_key_material-IsHex s = all-hex_digits 16 _ [] refl
