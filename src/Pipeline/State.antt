-- ===== src/Pipeline/State.antt =====
-- crates/sdkwork-web-core/src/api_chain.rs: the state of a call, where it comes from, and what it is
-- projected to. The collapse of a doubled surface prefix is the library sdkwork_utils_rust's, an
-- argument. Instants are numbers.
use sdkwork_web_framework.Base.{
  ℕ, Bool, false, ◌&&◌, ◌||◌, Option, none, some, if◌then◌else◌, is_some, or_else, and_then,
  unwrap_or, Result, ok, ok_or, ◌>>=◌,
}
use sdkwork_web_framework.Base.Text.{Str, lit, str_eq}
use sdkwork_web_framework.Contract.{RouteAuth, RateLimitTier}
use sdkwork_web_framework.Errors.{WebFrameworkError, bad_request}
use sdkwork_web_framework.Http.{HeaderMap, Request, contains_key, header_value}
use sdkwork_web_framework.Http.Extractors.{
  idempotency_key_of, bearer_token, api_key_of, ingress_token_of, agent_token_of, access_token_of,
}
use sdkwork_web_framework.OpenApiAuth.{WebCallCredentials}
use sdkwork_web_framework.Principal.{WebRequestPrincipal}
use sdkwork_web_framework.Principal.Context.{
  WebAuthMode, WebClientKind, WebRequestContext, WebOperationBinding,
}
use sdkwork_web_framework.Security.{CorsPolicy, SecurityPolicy}
use sdkwork_web_framework.Security.Cors.{origin_of}
use sdkwork_web_framework.Stores.Idempotency.{IdempotencyResponseRecord}
use sdkwork_web_framework.Stores.RateLimit.Tiers.{ResolvedRateLimitPolicy}
use sdkwork_web_framework.Surface.{WebApiSurface}
use sdkwork_web_framework.Trace.{trace_id_from_traceparent}

-- tenant_runtime.rs
pub record TenantRuntimeProfile : Type 0 where
  pub rate_limit_enabled : Option Bool
  pub max_content_length : Option ℕ
  pub max_concurrent_requests : Option ℕ

pub record WebCallState : Type 0 where
  pub request_id : Option Str
  pub api_surface : WebApiSurface
  pub auth_mode : WebAuthMode
  pub principal : Option WebRequestPrincipal
  pub path : Str
  pub method : Str
  pub cors_preflight : Bool
  pub origin : Option Str
  pub public_path : Bool
  pub operation_id : Option Str
  pub route_template : Option Str
  pub client_kind : Option WebClientKind
  pub route_auth : Option RouteAuth
  pub credentials : WebCallCredentials
  pub idempotency_key : Option Str
  pub idempotency_fingerprint : Option Str
  pub idempotency_leader : Bool
  pub idempotency_replay : Option IdempotencyResponseRecord
  pub traceparent : Option Str
  pub tracestate : Option Str
  pub rate_limit_tier : Option RateLimitTier
  pub manifest_idempotent : Bool
  pub resolved_cors : Option CorsPolicy
  pub tenant_runtime_profile : Option TenantRuntimeProfile
  pub resolved_rate_limit : Option ResolvedRateLimitPolicy
  pub concurrent_admission_key : Option Str
  pub accepted_at : Option ℕ
  pub redacted_query : Option Str
  pub safe_request_headers : Option Str
  pub client_ip : Option Str
  pub forbid_credential_headers : Bool
  pub before_failure : Option WebFrameworkError

unfoldable pub credentials_of : HeaderMap → WebCallCredentials
credentials_of headers =
    let access_token = access_token_of headers in
    let bearer = bearer_token headers in
    record {
      auth_token = bearer;
      access_token = access_token;
      api_key = api_key_of headers;
      ingress_token = ingress_token_of headers;
      oauth_bearer = if is_some access_token then none else bearer;
      agent_token = agent_token_of headers;
    }

-- `WebCallState::from_request`
unfoldable pub from_request : (collapse_prefix : Str → Str) → Request → WebCallState
unfolding credentials_of
from_request collapse_prefix request = record {
  request_id = none;
  api_surface = WebApiSurface.unknown;
  auth_mode = WebAuthMode.public;
  principal = none;
  path = collapse_prefix request.path;
  method = request.method;
  cors_preflight =
      str_eq request.method (lit "OPTIONS")
      && contains_key request.headers (lit "origin")
      && contains_key request.headers (lit "access-control-request-method");
  origin = origin_of request.headers;
  public_path = false;
  operation_id = header_value request.headers (lit "X-Sdkwork-Operation-Id");
  route_template = none;
  client_kind = none;
  route_auth = none;
  credentials = credentials_of request.headers;
  idempotency_key = idempotency_key_of request.headers;
  idempotency_fingerprint = none;
  idempotency_leader = false;
  idempotency_replay = none;
  traceparent = none;
  tracestate = none;
  rate_limit_tier = none;
  manifest_idempotent = false;
  resolved_cors = none;
  tenant_runtime_profile = none;
  resolved_rate_limit = none;
  concurrent_admission_key = none;
  accepted_at = none;
  redacted_query = none;
  safe_request_headers = none;
  client_ip = none;
  forbid_credential_headers = false;
  before_failure = none;
}

unfoldable pub credentials_present : WebCallState → Bool
credentials_present state =
    is_some state.credentials.auth_token
    || is_some state.credentials.access_token
    || is_some state.credentials.api_key
    || is_some state.credentials.ingress_token
    || is_some state.credentials.oauth_bearer
    || is_some state.credentials.agent_token

-- `operation_id.zip(route_template)`
unfoldable pub operation_binding : WebCallState → Option WebOperationBinding
operation_binding state = and_then state.operation_id (λ operation_id.
    and_then state.route_template (λ route_template. some (record {
      operation_id = operation_id;
      route_template = route_template;
      rate_limit_tier = state.rate_limit_tier;
      idempotent = state.manifest_idempotent;
    })))

unfoldable pub to_context : WebCallState → Result WebRequestContext WebFrameworkError
unfolding operation_binding
to_context state = do
  request_id ← ok_or state.request_id (bad_request (lit "request id interceptor has not run"))
  ok (record {
    request_id = request_id;
    api_surface = state.api_surface;
    auth_mode = state.auth_mode;
    transport = record {
      path = state.path;
      method = state.method;
      auth_token_present = is_some state.credentials.auth_token;
      access_token_present = is_some state.credentials.access_token;
      api_key_present = is_some state.credentials.api_key;
      ingress_token_present = is_some state.credentials.ingress_token;
      oauth_bearer_present = is_some state.credentials.oauth_bearer;
      agent_token_present = is_some state.credentials.agent_token;
    };
    principal = state.principal;
    locale = none;
    client_kind = state.client_kind;
    operation = operation_binding state;
    trace_id = and_then state.traceparent (λ traceparent. trace_id_from_traceparent traceparent);
    idempotency_key = state.idempotency_key;
  })

-- the overlays of the runtime: `effective_cors`, `effective_max_content_length` and
-- `rate_limit_globally_enabled`
unfoldable pub effective_cors : SecurityPolicy → WebCallState → CorsPolicy
effective_cors policy state = unwrap_or state.resolved_cors policy.cors

unfoldable pub effective_max_content_length : SecurityPolicy → WebCallState → Option ℕ
effective_max_content_length policy state =
    or_else (and_then state.tenant_runtime_profile (λ profile. profile.max_content_length))
      policy.request_size_limit

unfoldable pub rate_limit_globally_enabled : SecurityPolicy → WebCallState → Bool
rate_limit_globally_enabled policy state =
    elim (and_then state.tenant_runtime_profile (λ profile. profile.rate_limit_enabled)) [
      | none ↦ policy.rate_limit.enabled
      | some overlay ↦ if overlay then policy.rate_limit.enabled else false
    ]
