-- ===== src/Tests/Security.antt =====
-- The checks of requests, of permissions and of traces at concrete inputs.
use sdkwork_web_framework.Errors.{forbidden}
use sdkwork_web_framework.Base.{
  true, false, ◌||◌, none, some, [], ◌∷◌, ◌++◌, ◌≡◌, ◌⊎◌, refl, and_then, unwrap_or, is_empty,
  is_some, if◌then◌else◌, any, All, ok, ◌==◌,
}
use sdkwork_web_framework.Base.Text.{
  Str, lit, str_eq, starts_with, trim, trim_end, to_ascii_lowercase, before_first, contains,
  ends_with, is_whitespace, lower_char, strip_prefix, trim_matches, trim_start,
}
use sdkwork_web_framework.Base.Text.Ops.{
  strip_suffix, before_any, eq_ignore_ascii_case, is_ascii_digit, is_ascii_lowercase, non_empty,
  split_once_text, trimmed_non_empty,
}
use sdkwork_web_framework.Contract.{RouteAuth}
use sdkwork_web_framework.Http.{visible, Request, contains_key, Uri, HttpLibrary, header_text}
use sdkwork_web_framework.OpenApiAuth.{
  api_key_scheme, oauth_bearer_scheme, Presence, detect_profile, allowed_open_api_schemes,
}
use sdkwork_web_framework.OpenApiAuth.Detection.{Within, detect-Within}
use sdkwork_web_framework.Principal.Permissions.{permission_code_matches}
use sdkwork_web_framework.Principal.Permissions.Wildcards.{subtree_grant-confined}
use sdkwork_web_framework.Security.{
  CorsPolicy, default_cross_site, development_private_network_http_origin,
  development_private_network_https_origin,
}
use sdkwork_web_framework.Security.ConsoleHosts.{
  RegisteredConsoleHosts, matches, validate_hosts, is_registered_service_base_domain,
  host_is_registered, matches_uri, registered_service_base_domains,
}
use sdkwork_web_framework.Security.ConsoleHosts.Registry.{IsConsoleHost, matches-IsConsoleHost}
use sdkwork_web_framework.Security.Cors.{
  allows_origin, validate_for_production, is_private_network_origin, matches_app_authority,
  matches_loopback, origin_matches_allowed, origin_of, validate_origin, validate_origin_value,
}
use sdkwork_web_framework.Security.Cors.Production.{production_origins-exact}
use sdkwork_web_framework.Security.Requests.{
  is_state_changing_method, cookie_origin, validate_cross_site_request_with_cors,
  extract_origin_from_referer, validate_cookie_authenticated_source,
}
use sdkwork_web_framework.Security.Requests.CrossSite.{cookie_request-allowed}
use sdkwork_web_framework.Trace.{
  is_valid_traceparent, synthetic_traceparent, trace_id_from_traceparent, pad_hex, hex_of,
  resolve_trace_context, resolve_problem_trace_id, normalize_wire_trace_id, hyphenate,
}
use sdkwork_web_framework.Trace.Laws.{
  trace_id-synthetic_traceparent, resolve_trace_context-IsValid, resolve_problem_trace_id_eq,
}

abbrev console : Uri
console = record {
  scheme = some (lit "https");
  authority = some (lit "app-dev.sdkwork.com");
  host = lit "app-dev.sdkwork.com";
  port = none;
  path = lit "/";
  query = none;
}

-- A library that parses the one origin of these tests.
abbrev library : HttpLibrary
library = record {
  parse_uri = λ s. if str_eq s (lit "https://app-dev.sdkwork.com") then some console else none;
  is_private_or_loopback = str_eq (lit "10.0.0.1");
  parse_method = λ s. some s;
  is_header_value = λ s. true;
  percent_decode = λ s. s;
}

abbrev hosts : RegisteredConsoleHosts
hosts = record {
  labels = lit "app" ∷ lit "admin" ∷ [];
  environment_suffix = lit "-dev";
  schemes = lit "https" ∷ [];
  base_domains = lit "sdkwork.cn" ∷ lit "sdkwork.com" ∷ [];
}

hosts-valid : validate_hosts hosts ≡ ok tt
unfolding validate_hosts eq_ignore_ascii_case str_eq to_ascii_lowercase lit lower_char starts_with
    ends_with is_ascii_lowercase is_registered_service_base_domain registered_service_base_domains
hosts-valid = refl

console-matches : matches hosts (some console) ≡ true
unfolding matches eq_ignore_ascii_case str_eq to_ascii_lowercase lit lower_char contains starts_with
    strip_suffix
console-matches = refl

matches-IsConsoleHost_example :
    IsConsoleHost hosts hosts.base_domains (to_ascii_lowercase console.host)
    × All (λ b. is_registered_service_base_domain b ≡ true) hosts.base_domains
    × (is_some console.port ≡ false)
    × (is_some console.query ≡ false)
matches-IsConsoleHost_example = matches-IsConsoleHost hosts console hosts-valid console-matches

abbrev production_cors : CorsPolicy
production_cors = record {
  allow_all_origins = false;
  allowed_origins = lit "https://shop.example" ∷ [];
  registered_console_hosts = some hosts;
  allowed_methods = lit "GET" ∷ lit "POST" ∷ [];
  allowed_headers = lit "content-type" ∷ [];
  expose_headers = [];
  allow_credentials = true;
}

abbrev console_origin : Str
console_origin = lit "https://app-dev.sdkwork.com"

production_cors-valid : validate_for_production production_cors ≡ ok tt
unfolding validate_for_production validate_hosts eq_ignore_ascii_case str_eq to_ascii_lowercase lit
    lower_char starts_with ends_with is_ascii_lowercase is_registered_service_base_domain
    registered_service_base_domains
production_cors-valid = refl

origin-not_app : starts_with (lit "app://") console_origin ≡ false
unfolding starts_with lit
origin-not_app = refl

origin-not_tauri : starts_with (lit "tauri://") console_origin ≡ false
unfolding starts_with lit
origin-not_tauri = refl

production_origins-exact_example : allows_origin library production_cors console_origin ≡ (
    any (λ allowed. str_eq allowed console_origin) production_cors.allowed_origins
    || matches hosts (library.parse_uri console_origin))
production_origins-exact_example =
    production_origins-exact library console_origin production_cors production_cors-valid
      origin-not_app origin-not_tauri

-- a form post with a cookie, from the console
abbrev cookie_post : Request
cookie_post = record {
  method = lit "POST";
  path = lit "/app/v3/api/orders";
  query = none;
  headers = λ name.
      if str_eq name (lit "cookie")
      then some (visible (lit "session=1"))
      else if str_eq name (lit "origin")
      then some (visible console_origin)
      else none;
}

cookie_post-changes : is_state_changing_method cookie_post.method ≡ true
unfolding is_state_changing_method str_eq lit
cookie_post-changes = refl

cookie_post-cookie : contains_key cookie_post.headers (lit "cookie") ≡ true
unfolding contains_key str_eq lit
cookie_post-cookie = refl

cookie_post-passes :
    validate_cross_site_request_with_cors library default_cross_site production_cors cookie_post
      true
    ≡ ok tt
unfolding validate_cross_site_request_with_cors default_cross_site is_state_changing_method str_eq
    lit contains_key validate_origin trimmed_non_empty header_text trim trim_matches trim_end
    trim_start is_whitespace development_private_network_http_origin
    development_private_network_https_origin strip_suffix before_any eq_ignore_ascii_case
    is_ascii_digit non_empty split_once_text before_first contains lower_char starts_with
    strip_prefix to_ascii_lowercase forbidden host_is_registered matches matches_uri allows_origin
    is_private_network_origin matches_app_authority matches_loopback origin_matches_allowed
    origin_of validate_origin_value cookie_origin extract_origin_from_referer
    validate_cookie_authenticated_source
cookie_post-passes = refl

guards_cookies : default_cross_site.reject_cookie_auth_without_origin ≡ true
unfolding default_cross_site
guards_cookies = refl

cookie_request-allowed_example :
    (origin : Str) × (cookie_origin cookie_post.headers ≡ some origin)
    × (allows_origin library production_cors origin ≡ true)
cookie_request-allowed_example =
    cookie_request-allowed library default_cross_site production_cors cookie_post true
      guards_cookies cookie_post-changes cookie_post-cookie cookie_post-passes

grant-front :
    strip_suffix (lit ".*") (to_ascii_lowercase (trim (lit " IAM.users.* ")))
    ≡ some (lit "iam.users")
unfolding strip_suffix to_ascii_lowercase trim trim_matches trim_end trim_start lit is_whitespace
    str_eq lower_char
grant-front = refl

grant-matches : permission_code_matches (lit " IAM.users.* ") (lit "iam.users.read") ≡ true
unfolding permission_code_matches to_ascii_lowercase trim trim_matches trim_end trim_start lit
    is_whitespace str_eq lower_char strip_suffix starts_with
grant-matches = refl

subtree_grant-confined_example :
    (to_ascii_lowercase (trim (lit "iam.users.read"))
      ≡ to_ascii_lowercase (trim (lit " IAM.users.* ")))
    ⊎ ((to_ascii_lowercase (trim (lit "iam.users.read"))
          ≡ trim_end (λ c. c == b'.') (lit "iam.users"))
        ⊎ ((rest : Str) × (to_ascii_lowercase (trim (lit "iam.users.read"))
              ≡ trim_end (λ c. c == b'.') (lit "iam.users") ++ lit "." ++ rest)))
subtree_grant-confined_example =
    subtree_grant-confined (lit " IAM.users.* ") (lit "iam.users.read") (lit "iam.users")
      grant-front grant-matches

abbrev key_and_bearer : Presence
key_and_bearer = record { api_key = true; auth_token = true; access_token = false; oauth = true }

flexible-schemes : is_empty (allowed_open_api_schemes RouteAuth.open_api_flexible) ≡ false
unfolding allowed_open_api_schemes
flexible-schemes = refl

detect-Within_example : Within (allowed_open_api_schemes RouteAuth.open_api_flexible) (
    detect_profile
      (oauth_bearer_scheme ∷ api_key_scheme ∷ [])
      (some RouteAuth.open_api_flexible)
      key_and_bearer)
detect-Within_example =
    detect-Within (oauth_bearer_scheme ∷ api_key_scheme ∷ []) RouteAuth.open_api_flexible
      key_and_bearer flexible-schemes

trace_id-synthetic_traceparent_example :
    (is_valid_traceparent (synthetic_traceparent (lit "req-7f")) ≡ true)
    × (trace_id_from_traceparent (synthetic_traceparent (lit "req-7f"))
        ≡ some (pad_hex (hex_of (lit "req-7f")) 32))
trace_id-synthetic_traceparent_example = trace_id-synthetic_traceparent (lit "req-7f")

resolve_trace_context-IsValid_example :
    is_valid_traceparent (resolve_trace_context cookie_post.headers (lit "req-7f")).traceparent
    ≡ true
resolve_trace_context-IsValid_example =
    resolve_trace_context-IsValid cookie_post.headers (lit "req-7f")

resolve_problem_trace_id_eq_example :
    resolve_problem_trace_id (lit "req-7f") none
    ≡ unwrap_or
        (and_then none (λ id. normalize_wire_trace_id id))
        (hyphenate (to_ascii_lowercase (pad_hex (hex_of (lit "req-7f")) 32)))
resolve_problem_trace_id_eq_example = resolve_problem_trace_id_eq (lit "req-7f") none
