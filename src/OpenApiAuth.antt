-- ===== src/OpenApiAuth.antt =====
-- crates/sdkwork-web-core/src/open_api_auth.rs: which credential of an open-api request
-- authenticates it. The resolver of principals is an interface of the application
-- (`WebRequestContextResolver`), here a record of functions.
pub mod Detection
use sdkwork_web_framework.Base.{
  Bool, true, false, not, ◌&&◌, ◌||◌, Option, none, some, List, [], ◌∷◌, any, is_empty, is_some,
  if◌then◌else◌, or_else, find, Result, ok, err, ok_or, ◌>>=◌,
}
use sdkwork_web_framework.Base.Text.{Str, lit, starts_with}
use sdkwork_web_framework.Contract.{RouteAuth}
use sdkwork_web_framework.Errors.{
  WebFrameworkError, missing_credentials, invalid_credentials, with_reason,
}
use sdkwork_web_framework.Http.{HeaderMap}
use sdkwork_web_framework.Http.Extractors.{api_key_of, bearer_token}
use sdkwork_web_framework.Principal.{WebRequestPrincipal}
use sdkwork_web_framework.Principal.Context.{WebAuthMode}

-- api_chain.rs
pub record WebCallCredentials : Type 0 where
  pub auth_token : Option Str
  pub access_token : Option Str
  pub api_key : Option Str
  pub ingress_token : Option Str
  pub oauth_bearer : Option Str
  pub agent_token : Option Str

-- resolvers.rs: a scheme's name and the value that the request carries for it
pub record CompatibilityCredential : Type 0 where
  pub scheme_name : Str
  pub value : Str

-- the resolving methods of the trait `WebRequestContextResolver`
pub record Resolver : Type 0 where
  pub resolve_api_key : Str → Result WebRequestPrincipal WebFrameworkError
  pub resolve_dual_token : Str → Str → Result WebRequestPrincipal WebFrameworkError
  pub resolve_access_token : Str → Result WebRequestPrincipal WebFrameworkError
  pub resolve_oauth_bearer : Str → Result WebRequestPrincipal WebFrameworkError
  pub resolve_bearer_auth_token : Str → Result WebRequestPrincipal WebFrameworkError
  pub resolve_compatibility :
      Str → List CompatibilityCredential → Result WebRequestPrincipal WebFrameworkError

pub data OpenApiAuthScheme : Type 0 where
  api_key_scheme oauth_bearer_scheme dual_token_scheme : OpenApiAuthScheme

pub data OpenApiCredentialKind : Type 0 where
  api_key_kind auth_token_kind : OpenApiCredentialKind

-- the trait `OpenApiBearerCredentialClassifier`
abbrev pub Classifier : Type 0
Classifier = Str → OpenApiCredentialKind

-- `PrefixedOpenApiBearerCredentialClassifier`, and its default
unfoldable pub classify_by_prefixes : List Str → Classifier
classify_by_prefixes api_key_prefixes raw_credential =
    if any (λ prefix. starts_with prefix raw_credential) api_key_prefixes
    then api_key_kind
    else auth_token_kind

unfoldable pub default_classifier : Classifier
unfolding classify_by_prefixes
default_classifier = classify_by_prefixes (lit "sk-" ∷ lit "sp-" ∷ [])

unfoldable pub scheme_eq : OpenApiAuthScheme → OpenApiAuthScheme → Bool
scheme_eq api_key_scheme api_key_scheme = true
scheme_eq oauth_bearer_scheme oauth_bearer_scheme = true
scheme_eq dual_token_scheme dual_token_scheme = true
scheme_eq _ _ = false

-- the four flags that `detect` computes first
pub record Presence : Type 0 where
  pub api_key : Bool
  pub auth_token : Bool
  pub access_token : Bool
  pub oauth : Bool

unfoldable pub presence : WebCallCredentials → HeaderMap → Presence
presence credentials headers =
    let auth_token = is_some credentials.auth_token || is_some (bearer_token headers) in
    let access_token = is_some credentials.access_token in
    record {
      api_key = is_some credentials.api_key || is_some (api_key_of headers);
      auth_token = auth_token;
      access_token = access_token;
      oauth = is_some credentials.oauth_bearer || (auth_token && not access_token);
    }

-- What follows the table of route profiles: the schemes that are present, by preference.
unfoldable pub detect_flexible : List OpenApiAuthScheme → Presence → Option OpenApiAuthScheme
detect_flexible preference p =
    if p.api_key && p.oauth
    then or_else
        (find (λ preferred. any (scheme_eq preferred) (api_key_scheme ∷ oauth_bearer_scheme ∷ []))
          preference)
        (some api_key_scheme)
    else if p.api_key
    then some api_key_scheme
    else if p.oauth
    then some oauth_bearer_scheme
    else none

abbrev pub Detected : Type 0
Detected = Result (Option OpenApiAuthScheme) WebFrameworkError

unfoldable pub detect_api_key : Presence → Detected
detect_api_key p =
    if not p.api_key
    then ok none
    else if p.oauth
    then err (
        invalid_credentials
          (lit "route requires API key authentication; OAuth bearer is not accepted"))
    else ok (some api_key_scheme)

unfoldable pub detect_oauth : Presence → Detected
detect_oauth p =
    if not p.oauth
    then ok none
    else if p.api_key
    then err (
        invalid_credentials
          (lit "route requires OAuth bearer authentication; API key is not accepted"))
    else ok (some oauth_bearer_scheme)

unfoldable pub detect_key_or_dual : Presence → Detected
detect_key_or_dual p =
    if p.api_key && (p.auth_token || p.access_token)
    then err (
        with_reason
          (invalid_credentials
            (lit "api-key-or-dual-token routes do not accept mixed credential profiles"))
          (lit "credential-profile-contamination"))
    else if (p.auth_token && not p.access_token) || (p.access_token && not p.auth_token)
    then err (
        with_reason
          (missing_credentials
            (lit "the dual-token branch requires both Authorization and Access-Token"))
          (lit "incomplete-credential-profile"))
    else if p.api_key
    then ok (some api_key_scheme)
    else if p.auth_token
    then ok (some dual_token_scheme)
    else ok none

unfoldable pub detect_dual_token : Presence → Detected
detect_dual_token p =
    if p.auth_token && p.access_token then ok (some dual_token_scheme) else ok none

unfoldable pub detect_bearer_flexible : Presence → Detected
detect_bearer_flexible p =
    if p.access_token
    then err (
        with_reason
          (invalid_credentials (
            lit
              "open-api bearer-flexible routes accept a single bearer credential; Access-Token is not allowed"))
          (lit "credential-profile-contamination"))
    else if p.api_key && p.auth_token
    then err (
        with_reason
          (invalid_credentials
            (lit "open-api bearer-flexible routes do not accept mixed credential headers"))
          (lit "credential-profile-contamination"))
    else if p.api_key || p.oauth
    then ok (some oauth_bearer_scheme)
    else ok none

-- the `match` on the route's profile
unfoldable pub detect_profile : List OpenApiAuthScheme → Option RouteAuth → Presence → Detected
unfolding detect_flexible detect_api_key detect_oauth detect_key_or_dual detect_dual_token
    detect_bearer_flexible
detect_profile preference (some RouteAuth.api_key) p = detect_api_key p
detect_profile preference (some RouteAuth.oauth) p = detect_oauth p
detect_profile preference (some RouteAuth.api_key_or_dual_token) p = detect_key_or_dual p
detect_profile preference (some RouteAuth.dual_token) p = detect_dual_token p
detect_profile preference (some RouteAuth.dual_token_or_anonymous) p = detect_dual_token p
detect_profile preference (some RouteAuth.open_api_bearer_flexible) p = detect_bearer_flexible p
detect_profile preference _ p = ok (detect_flexible preference p)

-- the trait `OpenApiCredentialSchemeDetector`, and `DefaultOpenApiCredentialSchemeDetector`
abbrev pub Detector : Type 0
Detector = WebCallCredentials → HeaderMap → Option RouteAuth → Detected

unfoldable pub detect : List OpenApiAuthScheme → Detector
unfolding presence detect_profile
detect preference credentials headers route_auth =
    detect_profile preference route_auth (presence credentials headers)

abbrev pub default_preference : List OpenApiAuthScheme
default_preference = api_key_scheme ∷ oauth_bearer_scheme ∷ []

abbrev pub Resolved : Type 0
Resolved = Result (WebAuthMode × WebRequestPrincipal) WebFrameworkError

unfoldable pub resolve_open_api_bearer_flexible :
    WebCallCredentials → Classifier → Resolver → Resolved
resolve_open_api_bearer_flexible credentials classifier inner = do
  raw ← ok_or (or_else credentials.oauth_bearer credentials.api_key) (
      missing_credentials
        (lit "open-api bearer-flexible routes require Authorization: Bearer or X-Api-Key"))
  elim (classifier raw) [
    | api_key_kind ↦ inner.resolve_api_key raw >>= λ principal. ok (WebAuthMode.api_key, principal)
    | auth_token_kind ↦
        inner.resolve_bearer_auth_token raw >>= λ principal. ok (WebAuthMode.oauth, principal)
  ]

-- the second half of the pipeline: the principal for a scheme
unfoldable pub resolve_scheme : WebCallCredentials → Resolver → OpenApiAuthScheme → Resolved
resolve_scheme credentials inner api_key_scheme = do
  raw ← ok_or credentials.api_key (missing_credentials (lit "open-api API key is required"))
  principal ← inner.resolve_api_key raw
  ok (WebAuthMode.api_key, principal)
resolve_scheme credentials inner oauth_bearer_scheme = do
  raw ←
      ok_or credentials.oauth_bearer
        (missing_credentials (lit "open-api OAuth bearer token is required"))
  principal ← inner.resolve_oauth_bearer raw
  ok (WebAuthMode.oauth, principal)
resolve_scheme credentials inner dual_token_scheme = do
  auth_token ←
      ok_or credentials.auth_token
        (missing_credentials (lit "open-api dual-token authentication requires Authorization"))
  access_token ←
      ok_or credentials.access_token
        (missing_credentials (lit "open-api dual-token authentication requires Access-Token"))
  principal ← inner.resolve_dual_token auth_token access_token
  ok (WebAuthMode.dual_token, principal)

unfoldable pub resolve_open_api_request_context :
    WebCallCredentials → HeaderMap → Option RouteAuth → Detector → Resolver → Resolved
unfolding resolve_scheme
resolve_open_api_request_context credentials headers route_auth detector inner = do
  detected ← detector credentials headers route_auth
  scheme ← ok_or detected (
      missing_credentials (
        lit
          "open-api requests require API key (X-Api-Key) or OAuth bearer (Authorization: Bearer)"))
  resolve_scheme credentials inner scheme

-- `allowed_open_api_schemes`
unfoldable pub allowed_open_api_schemes : RouteAuth → List OpenApiAuthScheme
allowed_open_api_schemes RouteAuth.api_key = api_key_scheme ∷ []
allowed_open_api_schemes RouteAuth.oauth = oauth_bearer_scheme ∷ []
allowed_open_api_schemes RouteAuth.open_api_flexible = api_key_scheme ∷ oauth_bearer_scheme ∷ []
allowed_open_api_schemes RouteAuth.open_api_bearer_flexible = oauth_bearer_scheme ∷ []
allowed_open_api_schemes RouteAuth.api_key_or_dual_token = api_key_scheme ∷ dual_token_scheme ∷ []
allowed_open_api_schemes RouteAuth.dual_token_or_anonymous = dual_token_scheme ∷ []
allowed_open_api_schemes _ = []
