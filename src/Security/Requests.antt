-- ===== src/Security/Requests.antt =====
-- crates/sdkwork-web-core/src/security.rs: the guards on the method, the size, the content type and
-- the origin of a state-changing request, and the order of `validate_request`.
pub mod CrossSite
use sdkwork_web_framework.Security.Cors.{validate_origin, validate_origin_value, origin_of}
use sdkwork_web_framework.Base.{
  ℕ, ◌*◌, ◌-◌, ◌^◌, Bool, true, false, not, ◌&&◌, ◌||◌, Option, none, some, List, [], ◌∷◌, ◌++◌,
  any, is_empty, is_some, if◌then◌else◌, and_then, or_else, unwrap_or, ltb, leb, ◌==◌, Result, ok,
  err, ◌>>◌, ◌>>=◌,
}
use sdkwork_web_framework.Base.Text.{Str, lit, str_eq, trim, before_first, to_ascii_lowercase}
use sdkwork_web_framework.Base.Text.Ops.{parse_unsigned, split_once_text, before_any, non_empty}
use sdkwork_web_framework.Errors.{
  WebFrameworkError, forbidden, bad_request, payload_too_large, method_not_allowed,
}
use sdkwork_web_framework.Http.{HeaderMap, HttpLibrary, visible, Request, header_text, contains_key}
use sdkwork_web_framework.Security.{
  CorsPolicy, CrossSiteRequestPolicy, HeaderSecurityPolicy, SecurityPolicy,
}
use sdkwork_web_framework.Security.SqlInjection.{validate_sql_injection}
use sdkwork_web_framework.Base.Dict

unfoldable pub is_state_changing_method : Str → Bool
is_state_changing_method method =
    any (str_eq method) (lit "POST" ∷ lit "PUT" ∷ lit "PATCH" ∷ lit "DELETE" ∷ [])

unfoldable pub validate_method : SecurityPolicy → Request → Result (Unit {0}) WebFrameworkError
validate_method policy request =
    if any (str_eq request.method) policy.method_guard
    then ok tt
    else err (method_not_allowed (lit "HTTP method " ++ request.method ++ lit " is not allowed"))

abbrev pub u64_max : ℕ
u64_max = 2 ^ 64 - 1

-- `get("content-length")`, as a text that parses as a `u64`
unfoldable pub content_length : HeaderMap → Option ℕ
content_length headers =
    and_then (header_text headers (lit "content-length")) (λ value. parse_unsigned u64_max value)

unfoldable pub validate_content_length_with_limit :
    Request → Option ℕ → Result (Unit {0}) WebFrameworkError
validate_content_length_with_limit request none = ok tt
validate_content_length_with_limit request (some limit) = elim (content_length request.headers) [
  | none ↦
      if any (str_eq request.method) (lit "POST" ∷ lit "PUT" ∷ lit "PATCH" ∷ [])
        && contains_key request.headers (lit "transfer-encoding")
      then err (
          bad_request (
            lit
              "requests with transfer-encoding must include content-length for API size policy enforcement"))
      else ok tt
  | some value ↦
      if leb value limit
      then ok tt
      else err (payload_too_large (lit "request content length exceeds API policy"))
]

unfoldable pub has_body : HeaderMap → Bool
has_body headers =
    elim (content_length headers) [ none ↦ false | some length ↦ ltb 0 length ]
    || contains_key headers (lit "transfer-encoding")

unfoldable pub validate_json_content_type :
    SecurityPolicy → Request → Result (Unit {0}) WebFrameworkError
validate_json_content_type policy request =
    if not policy.json_content_type
    then ok tt
    else if not (is_state_changing_method request.method)
    then ok tt
    else if not (has_body request.headers)
    then ok tt
    else if str_eq
        (to_ascii_lowercase (
          trim
            (before_first b';' (unwrap_or (header_text request.headers (lit "content-type")) []))))
        (lit "application/json")
    then ok tt
    else err (
        bad_request (lit "state-changing JSON API requests require Content-Type: application/json"))

-- the origin of a referer: its scheme and its authority
unfoldable pub extract_origin_from_referer : Str → Option Str
extract_origin_from_referer referer =
    let trimmed = trim referer in
    if is_empty trimmed
    then none
    else elim (split_once_text (lit "://") (before_first b'#' trimmed)) [
      | none ↦ none
      | some (scheme, rest) ↦
          if not (str_eq scheme (lit "http")) && not (str_eq scheme (lit "https"))
          then none
          else elim (non_empty (some (before_any (λ c. c == b'/' || c == b'?') rest))) [
            | none ↦ none
            | some authority ↦ some (scheme ++ lit "://" ++ authority)
          ]
    ]

-- the origin of a request with a cookie: its header, or that of its referer
unfoldable pub cookie_origin : HeaderMap → Option Str
cookie_origin headers = or_else (origin_of headers) (
    and_then (header_text headers (lit "referer")) (λ referer. extract_origin_from_referer referer))

module _ (library : HttpLibrary) where
  unfoldable pub validate_cookie_authenticated_source :
      CorsPolicy → HeaderMap → Result (Unit {0}) WebFrameworkError
  validate_cookie_authenticated_source cors headers = elim (cookie_origin headers) [
    | none ↦
        err
          (forbidden (lit "state-changing cookie-authenticated requests require Origin or Referer"))
    | some origin ↦ validate_origin_value library cors origin
  ]

  unfoldable pub validate_cross_site_request_with_cors :
      CrossSiteRequestPolicy → CorsPolicy → Request → Bool → Result (Unit {0}) WebFrameworkError
  unfolding validate_cookie_authenticated_source
  validate_cross_site_request_with_cors cross_site cors request skip_origin_rejection =
      if not cross_site.reject_untrusted_state_changing_origins
        && not cross_site.reject_cookie_auth_without_origin
      then ok tt
      else if not (is_state_changing_method request.method)
      then ok tt
      else let has_cookie = contains_key request.headers (lit "cookie") in
        (if cross_site.reject_untrusted_state_changing_origins
            && (not skip_origin_rejection || has_cookie)
          then validate_origin library cors request.headers
          else ok tt)
        >> (if cross_site.reject_cookie_auth_without_origin && has_cookie
            then validate_cookie_authenticated_source cors request.headers
            else ok tt)

  -- `RequestSecurityPolicy::validate_request`
  unfoldable pub validate_request : SecurityPolicy → Request → Result (Unit {0}) WebFrameworkError
  unfolding validate_cross_site_request_with_cors
  validate_request policy request = do
    validate_method policy request
    validate_content_length_with_limit request policy.request_size_limit
    validate_origin library policy.cors request.headers
    validate_cross_site_request_with_cors policy.cross_site policy.cors request false
    validate_sql_injection library policy request
