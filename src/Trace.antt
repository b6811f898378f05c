-- ===== src/Trace.antt =====
-- crates/sdkwork-web-core/src/trace.rs: W3C trace contexts, read from a request or made up from its
-- identifier.
pub mod Hex
pub mod Laws
use sdkwork_web_framework.Base.{
  ℕ, zero, suc, Bool, true, false, not, ◌&&◌, ◌==◌, ◌-◌, Option, none, some, List, [], ◌∷◌, ◌++◌,
  all, filter, length, is_empty, if◌then◌else◌, and_then, unwrap_or,
}
use sdkwork_web_framework.Base.Text.{Str, lit, str_eq, split, trim, to_ascii_lowercase}
use sdkwork_web_framework.Base.Text.Ops.{is_ascii_hexdigit}
use sdkwork_web_framework.Hashing.{hash_key_material}
use sdkwork_web_framework.Http.{HeaderMap, header_value}

pub record TraceContext : Type 0 where
  pub traceparent : Str
  pub tracestate : Option Str

-- a text of so many hexadecimal digits; `len` counts bytes, which are the digits where `all` holds
unfoldable pub is_hex_of : ℕ → Str → Bool
is_hex_of count s = length s == count && all is_ascii_hexdigit s

unfoldable pub trace_id_of_parts : List Str → Option Str
trace_id_of_parts [] = none
trace_id_of_parts (version ∷ []) = none
trace_id_of_parts (version ∷ trace_id ∷ rest) =
    if not (str_eq version (lit "00"))
    then none
    else if is_hex_of 32 trace_id
    then some trace_id
    else none

unfoldable pub trace_id_from_traceparent : Str → Option Str
unfolding trace_id_of_parts is_hex_of
trace_id_from_traceparent traceparent = trace_id_of_parts (split b'-' traceparent)

unfoldable pub take_chars : ℕ → Str → Str
take_chars zero s = []
take_chars (suc n) [] = []
take_chars (suc n) (c ∷ s) = c ∷ take_chars n s

unfoldable pub drop_chars : ℕ → Str → Str
drop_chars zero s = s
drop_chars (suc n) [] = []
drop_chars (suc n) (c ∷ s) = drop_chars n s

-- the slice `s[from..from + count]`
unfoldable pub slice : ℕ → ℕ → Str → Str
unfolding take_chars drop_chars
slice from count s = take_chars count (drop_chars from s)

unfoldable pub hyphenate : Str → Str
unfolding slice
hyphenate s =
    slice 0 8 s
    ++ lit "-"
    ++ slice 8 4 s
    ++ lit "-"
    ++ slice 12 4 s
    ++ lit "-"
    ++ slice 16 4 s
    ++ lit "-"
    ++ slice 20 12 s

unfoldable pub normalize_wire_trace_id : Str → Option Str
unfolding hyphenate is_hex_of
normalize_wire_trace_id trace_id =
    let trimmed = trim trace_id in
    if is_empty trimmed
    then none
    else if is_hex_of 32 trimmed
    then some (hyphenate (to_ascii_lowercase trimmed))
    else some trimmed

-- four parts of the lengths 2, 32, 16 and 2, the middle two hexadecimal; `len` of the first and
-- the last part counts the bytes of UTF-8, here the bytes of an ASCII header value
unfoldable pub valid_parts : List Str → Bool
unfolding is_hex_of
valid_parts (version ∷ trace_id ∷ span_id ∷ flags ∷ []) =
    length version == 2 && is_hex_of 32 trace_id && is_hex_of 16 span_id && length flags == 2
valid_parts _ = false

unfoldable pub is_valid_traceparent : Str → Bool
unfolding valid_parts
is_valid_traceparent value = valid_parts (split b'-' value)

-- `push('0')` until the text has its length
unfoldable pub zeros : ℕ → Str
zeros zero = []
zeros (suc count) = b'0' ∷ zeros count

unfoldable pub pad_hex : Str → ℕ → Str
unfolding take_chars zeros
pad_hex value len = let out = take_chars len value in out ++ zeros (len - length out)

unfoldable pub hex_of : Str → Str
hex_of request_id = filter is_ascii_hexdigit request_id

unfoldable pub synthetic_traceparent : Str → Str
unfolding pad_hex hex_of
synthetic_traceparent request_id =
    lit "00-"
    ++ pad_hex (hex_of request_id) 32
    ++ lit "-"
    ++ pad_hex (hash_key_material (lit "span:" ++ request_id)) 16
    ++ lit "-01"

-- `resolve_trace_context`
unfoldable pub resolve_trace_context : HeaderMap → Str → TraceContext
unfolding is_valid_traceparent synthetic_traceparent
resolve_trace_context headers request_id =
    let synthetic : TraceContext = record {
      traceparent = synthetic_traceparent request_id;
      tracestate = none;
    } in
    elim (header_value headers (lit "traceparent")) [
      | none ↦ synthetic
      | some traceparent ↦
          if is_valid_traceparent traceparent
          then record {
            traceparent = traceparent;
            tracestate = header_value headers (lit "tracestate");
          }
          else synthetic
    ]

unfoldable pub resolve_problem_trace_id : Str → Option Str → Str
unfolding normalize_wire_trace_id
resolve_problem_trace_id request_id trace_id =
    elim (and_then trace_id (λ id. normalize_wire_trace_id id)) [
      | some id ↦ id
      | none ↦
          unwrap_or
            (and_then (trace_id_from_traceparent (synthetic_traceparent request_id))
              (λ id. normalize_wire_trace_id id))
            (hex_of request_id)
    ]
