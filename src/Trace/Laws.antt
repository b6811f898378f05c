-- ===== src/Trace/Laws.antt =====
-- A trace context that is made up from a request's identifier can be read again.
use mathlib.Core.List.{append_assoc}
use sdkwork_web_framework.Base.{
  ℕ, suc, true, false, Option, some, [], ◌∷◌, ◌++◌, all, length, is_empty, unwrap_or, and_then, ◌≡◌,
  refl, ap, ◌∙◌, arith, Bool-cases, Option-cases, inl, inr,
}
use sdkwork_web_framework.Base.Text.{
  Str, lit, str_eq, split, trim, is_whitespace, trim_matches, to_ascii_lowercase,
}
use sdkwork_web_framework.Base.Text.Laws.{Avoids, Lacks, trim_start_of_Lacks, trim_end_of_Lacks}
use sdkwork_web_framework.Base.Text.Split.{split-cut, split-last}
use sdkwork_web_framework.Base.Text.Ops.{is_ascii_hexdigit, is_ascii_digit}
use sdkwork_web_framework.Hashing.{hash_key_material}
use sdkwork_web_framework.Http.{HeaderMap, header_value}
use sdkwork_web_framework.Trace.{
  is_hex_of, trace_id_of_parts, trace_id_from_traceparent, valid_parts, is_valid_traceparent,
  pad_hex, hex_of, synthetic_traceparent, resolve_trace_context, resolve_problem_trace_id,
  normalize_wire_trace_id, hyphenate,
}
use sdkwork_web_framework.Trace.Hex.{
  length-pad_hex, all-hex_of, all-pad_hex, hash_key_material-IsHex,
}

-- Hexadecimal digits are neither hyphens nor white space.
hex-Avoids : (s : Str) → all is_ascii_hexdigit s ≡ true → Avoids b'-' s
unfolding is_ascii_hexdigit is_ascii_digit
hex-Avoids [] h = tt
hex-Avoids (c ∷ s) h = (ground arith, hex-Avoids s (ground arith))

trace-IsHex : (request_id : Str) → is_hex_of 32 (pad_hex (hex_of request_id) 32) ≡ true
unfolding is_hex_of
trace-IsHex request_id = ground (
  arith,
  length-pad_hex (hex_of request_id) 32,
  all-pad_hex (hex_of request_id) 32 (all-hex_of request_id),
)

split-fields :
    (d : ℕ) (a b c e : Str)
    → Avoids d a
    → Avoids d b
    → Avoids d c
    → Avoids d e
    → split d (a ++ d ∷ (b ++ d ∷ (c ++ d ∷ e))) ≡ a ∷ b ∷ c ∷ e ∷ []
split-fields d a b c e ha hb hc he =
    rw (split-cut d a (b ++ d ∷ (c ++ d ∷ e)) ha, split-cut d b (c ++ d ∷ e) hb, split-cut d c e hc)
      (ap (λ r. a ∷ b ∷ c ∷ r) (split-last d e he))

assemble :
    (t u : Str)
    → lit "00-" ++ t ++ lit "-" ++ u ++ lit "-01"
      ≡ lit "00" ++ b'-' ∷ (t ++ b'-' ∷ (u ++ b'-' ∷ lit "01"))
unfolding lit
assemble t u =
    ap (λ r. b'0' ∷ b'0' ∷ b'-' ∷ r)
      (append_assoc (t ++ b'-' ∷ []) u (b'-' ∷ b'0' ∷ b'1' ∷ [])
        ∙ append_assoc t (b'-' ∷ []) (u ++ b'-' ∷ b'0' ∷ b'1' ∷ []))

synthetic_shape :
    (request_id : Str)
    → synthetic_traceparent request_id
      ≡ lit "00"
        ++ b'-'
          ∷ (pad_hex (hex_of request_id) 32
              ++ b'-'
                ∷ (pad_hex (hash_key_material (lit "span:" ++ request_id)) 16 ++ b'-' ∷ lit "01"))
unfolding synthetic_traceparent
synthetic_shape request_id =
    assemble (pad_hex (hex_of request_id) 32)
      (pad_hex (hash_key_material (lit "span:" ++ request_id)) 16)

span-IsHex :
    (request_id : Str)
    → is_hex_of 16 (pad_hex (hash_key_material (lit "span:" ++ request_id)) 16) ≡ true
unfolding is_hex_of
span-IsHex request_id =
    let hash = hash_key_material (lit "span:" ++ request_id) in
    ground (
      arith,
      length-pad_hex hash 16,
      all-pad_hex hash 16 (hash_key_material-IsHex (lit "span:" ++ request_id)),
    )

split-synthetic :
    (request_id : Str)
    → split b'-' (synthetic_traceparent request_id)
      ≡ lit "00"
        ∷ pad_hex (hex_of request_id) 32
        ∷ pad_hex (hash_key_material (lit "span:" ++ request_id)) 16
        ∷ lit "01"
        ∷ []
unfolding lit
split-synthetic request_id =
    let material = lit "span:" ++ request_id in
    rw (synthetic_shape request_id) (
      split-fields b'-' (lit "00") (pad_hex (hex_of request_id) 32)
        (pad_hex (hash_key_material material) 16) (lit "01") (ground arith)
        (hex-Avoids (pad_hex (hex_of request_id) 32)
          (all-pad_hex (hex_of request_id) 32 (all-hex_of request_id)))
        (hex-Avoids (pad_hex (hash_key_material material) 16)
          (all-pad_hex (hash_key_material material) 16 (hash_key_material-IsHex material)))
        (ground arith))

-- Round trip: the traceparent that is made up from any request identifier is valid, and the trace
-- identifier that is read from it is the identifier's hexadecimal digits, cut or padded to 32.
pub trace_id-synthetic_traceparent :
    (request_id : Str)
    → (is_valid_traceparent (synthetic_traceparent request_id) ≡ true)
      × (trace_id_from_traceparent (synthetic_traceparent request_id)
          ≡ some (pad_hex (hex_of request_id) 32))
unfolding is_valid_traceparent trace_id_from_traceparent valid_parts trace_id_of_parts str_eq lit
trace_id-synthetic_traceparent request_id =
    let material = lit "span:" ++ request_id in
    rw (split-synthetic request_id, trace-IsHex request_id, span-IsHex request_id) (refl, refl)

-- A trace context is always valid: a caller's traceparent is kept only if it is, and otherwise a
-- valid one is made up.
pub resolve_trace_context-IsValid :
    (headers : HeaderMap) (request_id : Str)
    → is_valid_traceparent (resolve_trace_context headers request_id).traceparent ≡ true
unfolding resolve_trace_context
resolve_trace_context-IsValid headers request_id =
    elim (Option-cases (header_value headers (lit "traceparent"))) [
      | inl absent ↦
          rw (resolve_trace_context, absent) ((trace_id-synthetic_traceparent request_id).0)
      | inr (traceparent, given) ↦ elim (Bool-cases (is_valid_traceparent traceparent)) [
        | inl valid ↦ rw (resolve_trace_context, given, valid) valid
        | inr invalid ↦
            rw (resolve_trace_context, given, invalid)
              ((trace_id-synthetic_traceparent request_id).0)
      ]
    ]

hex-Lacks_whitespace : (s : Str) → all is_ascii_hexdigit s ≡ true → Lacks is_whitespace s
unfolding is_ascii_hexdigit is_ascii_digit is_whitespace
hex-Lacks_whitespace [] h = tt
hex-Lacks_whitespace (c ∷ s) h = (ground arith, hex-Lacks_whitespace s (ground arith))

trim-hex : (s : Str) → all is_ascii_hexdigit s ≡ true → trim s ≡ s
unfolding trim trim_matches
trim-hex s h =
    let lacks = hex-Lacks_whitespace s h in
    rw (trim_start_of_Lacks is_whitespace s lacks) (trim_end_of_Lacks is_whitespace s lacks)

normalize-hex :
    (s : Str)
    → is_hex_of 32 s ≡ true
    → all is_ascii_hexdigit s ≡ true
    → is_empty s ≡ false
    → normalize_wire_trace_id s ≡ some (hyphenate (to_ascii_lowercase s))
unfolding normalize_wire_trace_id hyphenate
normalize-hex s h k ne = rw (normalize_wire_trace_id, trim-hex s k, ne, h) refl

nonempty_of_length : (s : Str) (n : ℕ) → length s ≡ suc n → is_empty s ≡ false
nonempty_of_length [] n h = ground arith
nonempty_of_length (c ∷ s) n h = refl

is_empty-pad_hex : (s : Str) → is_empty (pad_hex s 32) ≡ false
is_empty-pad_hex s = nonempty_of_length (pad_hex s 32) 31 (length-pad_hex s 32)

-- The trace identifier of a problem response is the normalised one of the call, or else the digits
-- of the request's identifier, padded to 32, in lower case and with hyphens: the last fallback of
-- the code, the digits as they are, is never taken.
pub resolve_problem_trace_id_eq :
    (request_id : Str) (trace_id : Option Str)
    → resolve_problem_trace_id request_id trace_id
      ≡ unwrap_or
          (and_then trace_id (λ id. normalize_wire_trace_id id))
          (hyphenate (to_ascii_lowercase (pad_hex (hex_of request_id) 32)))
unfolding resolve_problem_trace_id hyphenate
resolve_problem_trace_id_eq request_id trace_id =
    let digits = pad_hex (hex_of request_id) 32 in
    let normal : normalize_wire_trace_id digits ≡ some (hyphenate (to_ascii_lowercase digits)) =
      normalize-hex digits (trace-IsHex request_id)
        (all-pad_hex (hex_of request_id) 32 (all-hex_of request_id))
        (is_empty-pad_hex (hex_of request_id)) in
    elim (Option-cases (and_then trace_id (λ id. normalize_wire_trace_id id))) [
      | inl absent ↦
          rw
            (
              resolve_problem_trace_id,
              absent,
              (trace_id-synthetic_traceparent request_id).1,
              normal,
            )
            refl
      | inr (id, given) ↦ rw (resolve_problem_trace_id, given) refl
    ]
