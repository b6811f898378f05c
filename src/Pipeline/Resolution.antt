-- ===== src/Pipeline/Resolution.antt =====
-- crates/sdkwork-web-core/src/interceptors.rs: the stage that resolves the principal of a call, and
-- the stage that requires one. Of the runtime the record `CallRuntime` has what the two read.
pub mod Personal
pub mod Consistency
use sdkwork_web_framework.Base.{
  Bool, true, false, not, ◌&&◌, ◌||◌, Option, none, some, List, [], ◌∷◌, ◌++◌, is_empty, is_some,
  if◌then◌else◌, and_then, Result, ok, err, ok_or, ◌>>=◌,
}
use sdkwork_web_framework.Base.Text.{Str, lit}
use sdkwork_web_framework.Contract.{
  RouteAuth, HttpRoute, auth_eq, CompatibilityAuth, CompatibilitySecurityScheme,
  CompatibilitySecurityRequirement, api_key_header, http_bearer,
}
use sdkwork_web_framework.Contract.Validation.{validate, scheme}
use sdkwork_web_framework.Errors.{
  WebFrameworkError, bad_request, missing_credentials, invalid_credentials, not_found, with_reason,
}
use sdkwork_web_framework.Http.{HeaderMap, opaque_value, visible}
use sdkwork_web_framework.Http.Extractors.{bearer_token}
use sdkwork_web_framework.Manifest.{HttpRouteManifest, match_route}
use sdkwork_web_framework.OpenApiAuth.{
  Resolver, Detector, Classifier, CompatibilityCredential, resolve_open_api_bearer_flexible,
  resolve_open_api_request_context,
}
use sdkwork_web_framework.Pipeline.Compatibility.{extract_compatibility_credentials}
use sdkwork_web_framework.Pipeline.State.{WebCallState, credentials_present}
use sdkwork_web_framework.Principal.{WebRequestPrincipal}
use sdkwork_web_framework.Principal.Context.{WebAuthMode}
use sdkwork_web_framework.Surface.{WebApiSurface}

pub record CallRuntime : Type 0 where
  pub resolver : Resolver
  pub route_manifest : Option HttpRouteManifest
  pub open_api_scheme_detector : Detector
  pub open_api_bearer_classifier : Classifier

unfoldable pub matched_route : WebCallState → CallRuntime → Option HttpRoute
matched_route state runtime =
    and_then runtime.route_manifest (λ manifest. match_route manifest state.method state.path)

abbrev pub Step : Type 0
Step = WebCallState × Result (Unit {0}) WebFrameworkError

-- `state.auth_mode = mode; state.principal = None; return Ok(())`
unfoldable pub anonymously : WebAuthMode → WebCallState → Step
anonymously mode state = (record state { auth_mode = mode; principal = none }, ok tt)

unfoldable pub refuse : WebCallState → WebFrameworkError → Step
refuse state error = (state, err error)

-- a principal that is awaited with `?`, then stored with its mode
unfoldable pub settle :
    WebCallState → Result (WebAuthMode × WebRequestPrincipal) WebFrameworkError → Step
settle state (ok (mode, principal)) =
    (record state { auth_mode = mode; principal = some principal }, ok tt)
settle state (err error) = (state, err error)

unfoldable pub tagged :
    WebAuthMode
    → Result WebRequestPrincipal WebFrameworkError
    → Result (WebAuthMode × WebRequestPrincipal) WebFrameworkError
tagged mode (ok principal) = ok (mode, principal)
tagged mode (err error) = err error

-- the mode is set before the token is resolved, so it stays set when that fails
unfoldable pub finish_access_token_only_context :
    WebCallState → CallRuntime → WebAuthMode → Str → Str → Step
unfolding settle tagged
finish_access_token_only_context state runtime mode missing_message missing_reason =
    elim state.credentials.access_token [
      | none ↦ refuse state (with_reason (missing_credentials missing_message) missing_reason)
      | some access_token ↦
          settle (record state { auth_mode = mode })
            (tagged mode (runtime.resolver.resolve_access_token access_token))
    ]

unfoldable pub finish_credential_entry_bootstrap_context : WebCallState → CallRuntime → Step
unfolding finish_access_token_only_context
finish_credential_entry_bootstrap_context state runtime =
    finish_access_token_only_context state runtime WebAuthMode.credential_entry_bootstrap
      (lit "credential-entry-bootstrap requests require bootstrap Access-Token JWT")
      (lit "missing-bootstrap-access-token")

unfoldable pub required_non_open_api_access_token : WebCallState → Result Str WebFrameworkError
required_non_open_api_access_token state = ok_or state.credentials.access_token (
    with_reason
      (missing_credentials
        (lit "non-open-api requests require Access-Token JWT for tenant isolation"))
      (lit "missing-access-token"))

-- the branch of a route of the compatibility profile
unfoldable pub resolve_compatibility_route : WebCallState → HeaderMap → CallRuntime → Step
unfolding settle tagged
resolve_compatibility_route state headers runtime = settle state (do
  route ← ok_or (matched_route state runtime) (
      with_reason
        (bad_request (lit "compatibility authentication requires a matched route manifest"))
        (lit "invalid-compatibility-auth-contract"))
  compatibility ← ok_or route.compatibility_auth (
      with_reason
        (bad_request (lit "compatibility route is missing external authentication metadata"))
        (lit "invalid-compatibility-auth-contract"))
  credentials ← extract_compatibility_credentials compatibility headers
  tagged WebAuthMode.compatibility
      (runtime.resolver.resolve_compatibility compatibility.external_protocol_id credentials))

-- what follows the table of profiles on open-api, with the default profile filled in
unfoldable pub resolve_open_api_scheme :
    WebCallState → HeaderMap → CallRuntime → Option RouteAuth → Step
unfolding settle
resolve_open_api_scheme state headers runtime route_auth = settle state (
    resolve_open_api_request_context state.credentials headers route_auth
      runtime.open_api_scheme_detector runtime.resolver)

-- the table of profiles
unfoldable pub resolve_open_api_as : RouteAuth → WebCallState → HeaderMap → CallRuntime → Step
unfolding anonymously refuse resolve_compatibility_route resolve_open_api_scheme settle
resolve_open_api_as RouteAuth.public state headers runtime = anonymously WebAuthMode.public state
resolve_open_api_as RouteAuth.refresh_token state headers runtime = refuse state (
    with_reason (bad_request (lit "refresh-token authentication is valid only on app-api routes"))
      (lit "invalid-refresh-token-surface"))
resolve_open_api_as RouteAuth.credential_entry_bootstrap state headers runtime =
    finish_credential_entry_bootstrap_context state runtime
resolve_open_api_as RouteAuth.compatibility state headers runtime =
    resolve_compatibility_route state headers runtime
resolve_open_api_as RouteAuth.open_api_bearer_flexible state headers runtime = settle state (
    resolve_open_api_bearer_flexible state.credentials runtime.open_api_bearer_classifier
      runtime.resolver)
resolve_open_api_as auth state headers runtime =
    resolve_open_api_scheme state headers runtime (some auth)

unfoldable pub resolve_open_api : WebCallState → HeaderMap → CallRuntime → Step
unfolding resolve_open_api_as anonymously refuse resolve_compatibility_route resolve_open_api_scheme
    settle
resolve_open_api state headers runtime = elim state.route_auth [
  | none ↦ resolve_open_api_scheme state headers runtime (
      some (
        if is_some state.credentials.access_token
        then RouteAuth.api_key_or_dual_token
        else RouteAuth.open_api_flexible))
  | some auth ↦ resolve_open_api_as auth state headers runtime
]

unfoldable pub resolve_internal_api : WebCallState → CallRuntime → Step
unfolding refuse settle tagged required_non_open_api_access_token
resolve_internal_api state runtime =
    if not
      (elim state.route_auth [ none ↦ false | some auth ↦ auth_eq auth RouteAuth.ingress_token ])
    then refuse state
        (missing_credentials (lit "protected internal-api routes require ingress-token auth"))
    else settle state (do
      ingress_token ← ok_or state.credentials.ingress_token (
          with_reason
            (missing_credentials (lit "internal-api requests require X-SDKWork-Ingress-Token"))
            (lit "missing-ingress-token"))
      access_token ← required_non_open_api_access_token state
      scope ← runtime.resolver.resolve_access_token access_token
      tagged WebAuthMode.ingress_token (runtime.resolver.resolve_api_key ingress_token))

unfoldable pub resolve_agent_token : WebCallState → CallRuntime → Step
unfolding settle tagged required_non_open_api_access_token
resolve_agent_token state runtime = settle state (do
  agent_token ←
      ok_or state.credentials.agent_token
        (missing_credentials (lit "agent routes require X-SDKWork-Agent-Token header"))
  access_token ← required_non_open_api_access_token state
  scope ← runtime.resolver.resolve_access_token access_token
  tagged WebAuthMode.agent_token (runtime.resolver.resolve_api_key agent_token))

unfoldable pub resolve_dual_token_context : WebCallState → CallRuntime → Step
unfolding settle tagged required_non_open_api_access_token
resolve_dual_token_context state runtime = settle state (do
  access_token ← required_non_open_api_access_token state
  auth_token ← ok_or state.credentials.auth_token (
      with_reason
        (missing_credentials
          (lit "app-api and backend-api requests require Authorization: Bearer <auth_token>"))
        (lit "missing-auth-token"))
  tagged WebAuthMode.dual_token (runtime.resolver.resolve_dual_token auth_token access_token))

-- both tokens, or an anonymous visitor
unfoldable pub resolve_optional_credential : WebCallState → CallRuntime → Step
unfolding settle tagged anonymously
resolve_optional_credential state runtime = elim state.credentials.access_token [
  | none ↦ anonymously WebAuthMode.public state
  | some access_token ↦ elim state.credentials.auth_token [
    | none ↦ anonymously WebAuthMode.public state
    | some auth_token ↦ settle state (
        tagged WebAuthMode.dual_token (runtime.resolver.resolve_dual_token auth_token access_token))
  ]
]

unfoldable pub is_surface : WebApiSurface → WebApiSurface → Bool
is_surface WebApiSurface.open_api WebApiSurface.open_api = true
is_surface WebApiSurface.app_api WebApiSurface.app_api = true
is_surface WebApiSurface.backend_api WebApiSurface.backend_api = true
is_surface WebApiSurface.internal_api WebApiSurface.internal_api = true
is_surface WebApiSurface.gateway_api WebApiSurface.gateway_api = true
is_surface WebApiSurface.unknown WebApiSurface.unknown = true
is_surface _ _ = false

-- the table of profiles
unfoldable pub resolve_first_party_as : RouteAuth → WebCallState → CallRuntime → Step
unfolding anonymously refuse resolve_agent_token resolve_dual_token_context
    resolve_optional_credential
resolve_first_party_as RouteAuth.public state runtime =
    if is_surface state.api_surface WebApiSurface.app_api
      || is_surface state.api_surface WebApiSurface.backend_api
    then anonymously WebAuthMode.public state
    else refuse state (
        with_reason
          (missing_credentials (lit "gateway-api routes must not declare public authentication"))
          (lit "invalid-non-open-api-public-route"))
resolve_first_party_as RouteAuth.dual_token_or_anonymous state runtime =
    if not (is_surface state.api_surface WebApiSurface.app_api)
    then refuse state (
        with_reason
          (missing_credentials
            (lit "dual-token-or-anonymous authentication is valid only on app-api routes"))
          (lit "invalid-optional-credential-surface"))
    else resolve_optional_credential state runtime
resolve_first_party_as RouteAuth.bootstrap_body state runtime =
    if not (is_surface state.api_surface WebApiSurface.backend_api)
    then refuse state (
        with_reason
          (missing_credentials
            (lit "bootstrap-body authentication is valid only on backend-api routes"))
          (lit "invalid-bootstrap-body-surface"))
    else anonymously WebAuthMode.bootstrap_body state
resolve_first_party_as RouteAuth.credential_entry_bootstrap state runtime =
    finish_credential_entry_bootstrap_context state runtime
resolve_first_party_as RouteAuth.refresh_token state runtime =
    if not (is_surface state.api_surface WebApiSurface.app_api)
    then refuse state (
        with_reason
          (bad_request (lit "refresh-token authentication is valid only on app-api routes"))
          (lit "invalid-refresh-token-surface"))
    else anonymously WebAuthMode.refresh_token state
resolve_first_party_as RouteAuth.agent_token state runtime = resolve_agent_token state runtime
resolve_first_party_as _ state runtime = resolve_dual_token_context state runtime

-- the surfaces app-api, backend-api and gateway-api
unfoldable pub resolve_first_party : WebCallState → CallRuntime → Step
unfolding resolve_first_party_as anonymously refuse resolve_agent_token resolve_dual_token_context
    resolve_optional_credential
resolve_first_party state runtime = elim state.route_auth [
  | none ↦
      if is_some runtime.route_manifest
      then refuse state (
          with_reason (not_found (lit "route is not registered in the gateway route manifest"))
            (lit "route-not-in-manifest"))
      else resolve_dual_token_context state runtime
  | some auth ↦ resolve_first_party_as auth state runtime
]

unfoldable pub resolve_on_surface : WebApiSurface → WebCallState → HeaderMap → CallRuntime → Step
unfolding resolve_open_api resolve_internal_api resolve_first_party refuse
resolve_on_surface WebApiSurface.open_api state headers runtime =
    resolve_open_api state headers runtime
resolve_on_surface WebApiSurface.internal_api state headers runtime =
    resolve_internal_api state runtime
resolve_on_surface WebApiSurface.app_api state headers runtime = resolve_first_party state runtime
resolve_on_surface WebApiSurface.backend_api state headers runtime =
    resolve_first_party state runtime
resolve_on_surface WebApiSurface.gateway_api state headers runtime =
    resolve_first_party state runtime
resolve_on_surface WebApiSurface.unknown state headers runtime = refuse state (
    missing_credentials
      (lit "requests on unclassified API surfaces require explicit public_path registration"))

unfoldable pub resolve_request_context : WebCallState → HeaderMap → CallRuntime → Step
unfolding anonymously resolve_on_surface
resolve_request_context state headers runtime =
    if state.cors_preflight
    then anonymously WebAuthMode.public state
    else if is_surface state.api_surface WebApiSurface.unknown && state.public_path
    then anonymously WebAuthMode.public state
    else resolve_on_surface state.api_surface state headers runtime

unfoldable pub is_public_mode : WebAuthMode → Bool
is_public_mode WebAuthMode.public = true
is_public_mode _ = false

unfoldable pub is_optional_route : Option RouteAuth → Bool
is_optional_route none = false
is_optional_route (some auth) = auth_eq auth RouteAuth.dual_token_or_anonymous

-- the stage of authentication
unfoldable pub require_authenticated_context : WebCallState → Result (Unit {0}) WebFrameworkError
unfolding is_public_mode is_optional_route
require_authenticated_context state =
    if state.public_path || state.cors_preflight
    then ok tt
    else if is_optional_route state.route_auth
        && is_public_mode state.auth_mode
        && not (credentials_present state)
    then ok tt
    else elim state.principal [
      | none ↦ err (missing_credentials (lit "protected routes require authenticated credentials"))
      | some principal ↦ ok tt
    ]
