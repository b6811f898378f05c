-- ===== src/Security/Cors.antt =====
-- crates/sdkwork-web-core/src/security.rs: which browser origins a policy admits, and the checks of a
-- preflight. The functions of std and http that they call are the parameter of the section.
pub mod Production
use sdkwork_web_framework.Security.ConsoleHosts.{matches, validate_hosts, HostsFault}
use sdkwork_web_framework.Base.{
  ℕ, Bool, true, false, not, ◌&&◌, ◌||◌, ◌==◌, Option, none, some, List, [], ◌∷◌, ◌++◌, all, any,
  is_empty, is_some, if◌then◌else◌, and_then, Result, ok, err,
}
use sdkwork_web_framework.Base.Text.{
  Str, lit, str_eq, contains, trim, trim_start, trim_end, strip_prefix, ends_with, split,
}
use sdkwork_web_framework.Base.Text.Ops.{
  eq_ignore_ascii_case, strip_suffix, join_with, is_ascii_digit, trimmed_non_empty,
}
use sdkwork_web_framework.Base.Dict
use sdkwork_web_framework.Base.Dict.{Dict}
use sdkwork_web_framework.Errors.{WebFrameworkError, forbidden}
use sdkwork_web_framework.Http.{
  HeaderMap, HeaderText, opaque_value, visible, HttpLibrary, Uri, header_text,
}
use sdkwork_web_framework.Security.{
  CorsPolicy, development_private_network_http_origin, development_private_network_https_origin,
}
use sdkwork_web_framework.Security.ConsoleHosts

-- Why `CorsPolicy::validate_for_production` refuses a policy.
pub data CorsFault : Type 0 where
  allows_all_origins : CorsFault
  hosts_fault : HostsFault → CorsFault
  port_wildcard : CorsFault
  header_wildcard : CorsFault

unfoldable pub validate_hosts_option :
    Option ConsoleHosts.RegisteredConsoleHosts → Result (Unit {0}) HostsFault
validate_hosts_option none = ok tt
validate_hosts_option (some hosts) = validate_hosts hosts

unfoldable pub validate_for_production : CorsPolicy → Result (Unit {0}) CorsFault
unfolding validate_hosts_option
validate_for_production policy =
    if policy.allow_all_origins
    then err allows_all_origins
    else elim (validate_hosts_option policy.registered_console_hosts) [
      | err fault ↦ err (hosts_fault fault)
      | ok u ↦
          if any (λ origin. ends_with (lit ":*") origin) policy.allowed_origins
          then err port_wildcard
          else if any (λ header. str_eq header (lit "*")) policy.allowed_headers
          then err header_wildcard
          else ok tt
    ]

abbrev pub loopback_bases : List Str
loopback_bases =
    lit "http://localhost"
    ∷ lit "http://127.0.0.1"
    ∷ lit "http://[::1]"
    ∷ lit "https://localhost"
    ∷ lit "https://127.0.0.1"
    ∷ lit "https://[::1]"
    ∷ []

-- the branch of `app://*` and `tauri://*`
unfoldable pub matches_app_authority : Str → Str → Bool
matches_app_authority required_prefix origin = elim (strip_prefix required_prefix origin) [
  | none ↦ false
  | some authority ↦ not (
      is_empty authority
      || any (λ c. c == b'/' || c == b'?' || c == b'#') authority
      || contains (lit "@") authority
      || not (str_eq origin (trim origin)))
]

-- the branch of a loopback host with any port
unfoldable pub matches_loopback : Str → Str → Bool
matches_loopback allowed origin = elim (strip_suffix (lit ":*") allowed) [
  | none ↦ false
  | some base ↦
      if not (any (str_eq base) loopback_bases)
      then false
      else elim (and_then (strip_prefix base origin) (λ suffix. strip_prefix (lit ":") suffix)) [
        | none ↦ str_eq origin base
        | some port ↦ not (is_empty port) && all is_ascii_digit port
      ]
]

-- the header `origin`, trimmed; one that is blank counts as none
unfoldable pub origin_of : HeaderMap → Option Str
origin_of headers = trimmed_non_empty (header_text headers (lit "origin"))

-- the loop over the names of `access-control-request-headers`
unfoldable pub check_requested_headers : List Str → List Str → Result (Unit {0}) WebFrameworkError
check_requested_headers allowed [] = ok tt
check_requested_headers allowed (piece ∷ pieces) =
    let rest = check_requested_headers allowed pieces in
    let requested = trim piece in
    if is_empty requested
    then rest
    else if any (λ name. eq_ignore_ascii_case name requested) allowed
    then rest
    else err (forbidden (lit "CORS preflight request header is not allowed by API policy"))

module _ (library : HttpLibrary) where
  unfoldable pub is_private_network_origin : Str → Str → Bool
  is_private_network_origin origin scheme = elim (library.parse_uri origin) [
    | none ↦ false
    | some uri ↦
        if not (elim uri.scheme [ none ↦ false | some s ↦ str_eq s scheme ])
          || not (is_some uri.authority)
          || not (str_eq uri.path (lit "/"))
          || is_some uri.query
        then false
        else library.is_private_or_loopback
            (trim_end (λ c. c == b']') (trim_start (λ c. c == b'[') uri.host))
  ]

  unfoldable pub origin_matches_allowed : Str → Str → Bool
  unfolding is_private_network_origin matches_app_authority matches_loopback
  origin_matches_allowed allowed origin =
      if str_eq allowed origin
      then true
      else if str_eq allowed development_private_network_http_origin
      then is_private_network_origin origin (lit "http")
      else if str_eq allowed development_private_network_https_origin
      then is_private_network_origin origin (lit "https")
      else if str_eq allowed (lit "app://*")
      then matches_app_authority (lit "app://") origin
      else if str_eq allowed (lit "tauri://*")
      then matches_app_authority (lit "tauri://") origin
      else matches_loopback allowed origin

  unfoldable pub allows_origin : CorsPolicy → Str → Bool
  unfolding origin_matches_allowed
  allows_origin policy origin =
      if policy.allow_all_origins
      then true
      else if any (λ allowed. origin_matches_allowed allowed origin) policy.allowed_origins
      then true
      else elim policy.registered_console_hosts [
        | none ↦ false
        | some hosts ↦ matches hosts (library.parse_uri origin)
      ]

  unfoldable pub validate_origin_value : CorsPolicy → Str → Result (Unit {0}) WebFrameworkError
  unfolding allows_origin
  validate_origin_value policy origin =
      if allows_origin policy origin
      then ok tt
      else err (forbidden (lit "CORS origin is not allowed by API policy"))

  unfoldable pub validate_origin : CorsPolicy → HeaderMap → Result (Unit {0}) WebFrameworkError
  unfolding validate_origin_value origin_of
  validate_origin policy headers = elim (origin_of headers) [
    | none ↦ ok tt
    | some origin ↦ validate_origin_value policy origin
  ]

  -- the check of the requested headers, after that of the method
  unfoldable pub validate_requested_headers :
      CorsPolicy → HeaderMap → Result (Unit {0}) WebFrameworkError
  unfolding check_requested_headers
  validate_requested_headers policy headers =
      if any (λ allowed. str_eq allowed (lit "*")) policy.allowed_headers
      then ok tt
      else elim (headers (lit "access-control-request-headers")) [
        | none ↦ ok tt
        | some value ↦ elim value [
          | opaque_value ↦ err (forbidden (lit "CORS preflight request headers are invalid"))
          | visible text ↦ check_requested_headers policy.allowed_headers (split b',' text)
        ]
      ]

  unfoldable pub validate_preflight : CorsPolicy → HeaderMap → Result (Unit {0}) WebFrameworkError
  unfolding validate_requested_headers
  validate_preflight policy headers =
      elim (and_then (header_text headers (lit "access-control-request-method"))
        (λ value. library.parse_method (trim value))) [
          | none ↦ err (forbidden (lit "CORS preflight request method is invalid or missing"))
          | some method ↦
              if not (any (str_eq method) policy.allowed_methods)
              then err
                  (forbidden (lit "CORS preflight request method is not allowed by API policy"))
              else validate_requested_headers policy headers
        ]
