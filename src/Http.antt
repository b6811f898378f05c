-- ===== src/Http.antt =====
-- What the program observes of a request of the libraries http and axum. A header map is a
-- parameter: it answers a name with nothing, with a value that is no visible ASCII text
-- (`to_str` fails), or with a text. A method is its token.
pub mod Extractors
use sdkwork_web_framework.Base.{ℕ, Bool, true, false, Option, none, some, is_some}
use sdkwork_web_framework.Base.Text.{Str, lit, str_eq, trim}
use sdkwork_web_framework.Base.Text.Ops.{trimmed_non_empty}

pub data HeaderText : Type 0 where
  opaque_value : HeaderText
  visible : Str → HeaderText

abbrev pub HeaderMap : Type 0
HeaderMap = Str → Option HeaderText

pub record Request : Type 0 where
  pub method : Str
  pub path : Str
  pub query : Option Str
  pub headers : HeaderMap

unfoldable pub contains_key : HeaderMap → Str → Bool
contains_key headers name = is_some (headers name)

-- `get(name).and_then(|value| value.to_str().ok())`
unfoldable pub header_text : HeaderMap → Str → Option Str
header_text headers name = elim (headers name) [
  | none ↦ none
  | some found ↦ elim found [ opaque_value ↦ none | visible s ↦ some s ]
]

-- extractors.rs, `header_value`
unfoldable pub header_value : HeaderMap → Str → Option Str
unfolding header_text
header_value headers name = trimmed_non_empty (header_text headers name)

-- What the program reads of a parsed `Uri`; the host and the port are the authority's.
pub record Uri : Type 0 where
  pub scheme : Option Str
  pub authority : Option Str
  pub host : Str
  pub port : Option ℕ
  pub path : Str
  pub query : Option Str

-- The functions of std, http and percent_encoding that the checks call: `parse::<Uri>()`, whether a
-- host parses as an address that is private or loopback, `parse::<Method>()`, whether
-- `HeaderValue::from_str` accepts a text, and percent decoding.
pub record HttpLibrary : Type 0 where
  pub parse_uri : Str → Option Uri
  pub is_private_or_loopback : Str → Bool
  pub parse_method : Str → Option Str
  pub is_header_value : Str → Bool
  pub percent_decode : Str → Str
