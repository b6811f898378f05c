-- ===== src/Hashing.antt =====
-- crates/sdkwork-web-core/src/hashing.rs: the FNV-1a hash of 64 bits that keys are made of.
use Prim.Native.Nat.{bit_xor}
use sdkwork_web_framework.Base.{
  ℕ, zero, suc, ◌+◌, ◌*◌, ◌/◌, ◌%◌, ◌^◌, List, [], ◌∷◌, if◌then◌else◌, ltb,
}
use sdkwork_web_framework.Base.Text.{Str}

-- `as_bytes`: UTF-8
unfoldable pub utf8 : Str → List ℕ
utf8 [] = []
utf8 (c ∷ s) =
    let rest = utf8 s in
    if ltb c 0x80
    then c ∷ rest
    else if ltb c 0x800
    then (0xc0 + c / 64) ∷ (0x80 + c % 64) ∷ rest
    else if ltb c 0x10000
    then (0xe0 + c / 4096) ∷ (0x80 + c / 64 % 64) ∷ (0x80 + c % 64) ∷ rest
    else (0xf0 + c / 262144)
      ∷ (0x80 + c / 4096 % 64)
      ∷ (0x80 + c / 64 % 64)
      ∷ (0x80 + c % 64)
      ∷ rest

-- the loop of `fnv1a64`, with `wrapping_mul` of 64 bits
unfoldable pub fnv1a64_from : ℕ → List ℕ → ℕ
fnv1a64_from hash [] = hash
fnv1a64_from hash (byte ∷ bytes) = fnv1a64_from (bit_xor hash byte * 0x100000001b3 % 2 ^ 64) bytes

unfoldable pub fnv1a64 : List ℕ → ℕ
unfolding fnv1a64_from
fnv1a64 bytes = fnv1a64_from 0xcbf29ce484222325 bytes

unfoldable pub hex_digit : ℕ → ℕ
hex_digit d = if ltb d 10 then b'0' + d else b'W' + d

-- the last digits of a number in base 16: `{:016x}` for 16 digits of a 64-bit number
unfoldable pub hex_digits : ℕ → ℕ → Str → Str
hex_digits zero n digits = digits
hex_digits (suc count) n digits = hex_digits count (n / 16) (hex_digit (n % 16) ∷ digits)

unfoldable pub hash_key_material : Str → Str
unfolding fnv1a64 utf8 hex_digits hex_digit
hash_key_material material = hex_digits 16 (fnv1a64 (utf8 material)) []
