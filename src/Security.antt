-- ===== src/Security.antt =====
-- crates/sdkwork-web-core/src/security.rs: the policies that guard a request, with their defaults.
-- The host pattern of registered_console_hosts.rs is in ConsoleHosts, and the checks are in the
-- other children. Texts of the policies are those of the source.
pub mod ConsoleHosts
pub mod Cors
pub mod ResponseHeaders
pub mod Requests
pub mod Credentials
pub mod SqlInjection
use ConsoleHosts.{RegisteredConsoleHosts}
use sdkwork_web_framework.Base.{
  ℕ, ◌*◌, Bool, true, false, Option, none, some, List, [], ◌∷◌, ◌++◌, if◌then◌else◌, any,
}
use sdkwork_web_framework.Base.Text.{Str, lit, str_eq}

pub record CorsPolicy : Type 0 where
  pub allow_all_origins : Bool
  pub allowed_origins : List Str
  pub registered_console_hosts : Option RegisteredConsoleHosts
  pub allowed_methods : List Str
  pub allowed_headers : List Str
  pub expose_headers : List Str
  pub allow_credentials : Bool

pub record CrossSiteRequestPolicy : Type 0 where
  pub reject_untrusted_state_changing_origins : Bool
  pub reject_cookie_auth_without_origin : Bool

pub record HeaderSecurityPolicy : Type 0 where
  pub content_type_options : Bool
  pub frame_options_deny : Bool
  pub referrer_policy : Option Str
  pub permissions_policy : Option Str
  pub strict_transport_security : Option Str

pub record RateLimitPolicy : Type 0 where
  pub enabled : Bool
  pub max_requests_per_window : ℕ
  pub window_secs : ℕ
  pub pre_auth_rate_limit : Bool
  pub tenant_limit_after_auth : Bool
  pub pre_auth_aggregate_multiplier : Option ℕ

pub record IdempotencyPolicy : Type 0 where
  pub require_for_retryable_commands : Bool
  pub retention_secs : ℕ
  pub max_cached_response_bytes : ℕ
  pub require_body_hash_for_payload : Bool

pub record SqlInjectionGuardPolicy : Type 0 where
  pub enabled : Bool
  pub inspected_headers : List Str

-- The policies of one field are those fields: `MethodGuardPolicy::allowed_methods`,
-- `RequestSizeLimitPolicy::max_content_length` and `JsonContentTypePolicy::enabled`.
pub record SecurityPolicy : Type 0 where
  pub cors : CorsPolicy
  pub cross_site : CrossSiteRequestPolicy
  pub header_security : HeaderSecurityPolicy
  pub method_guard : List Str
  pub request_size_limit : Option ℕ
  pub rate_limit : RateLimitPolicy
  pub idempotency : IdempotencyPolicy
  pub sql_injection_guard : SqlInjectionGuardPolicy
  pub json_content_type : Bool

abbrev pub standard_methods : List Str
standard_methods =
    lit "GET" ∷ lit "POST" ∷ lit "PUT" ∷ lit "PATCH" ∷ lit "DELETE" ∷ lit "OPTIONS" ∷ []

-- `CorsPolicy::default`
unfoldable pub default_cors : CorsPolicy
default_cors = record {
  allow_all_origins = false;
  allowed_origins = [];
  registered_console_hosts = none;
  allowed_methods = standard_methods;
  allowed_headers =
      lit "authorization"
      ∷ lit "access-token"
      ∷ lit "content-type"
      ∷ lit "idempotency-key"
      ∷ lit "x-content-sha256"
      ∷ lit "x-idempotency-fingerprint"
      ∷ lit "x-api-key"
      ∷ lit "x-sdkwork-access-token"
      ∷ lit "accept"
      ∷ lit "accept-language"
      ∷ lit "content-language"
      ∷ lit "x-requested-with"
      ∷ lit "x-request-id"
      ∷ lit "x-correlation-id"
      ∷ lit "x-tenant-id"
      ∷ lit "x-device-id"
      ∷ lit "x-client-version"
      ∷ lit "x-app-version"
      ∷ lit "x-platform"
      ∷ lit "traceparent"
      ∷ lit "tracestate"
      ∷ [];
  expose_headers = lit "x-request-id" ∷ lit "x-sdkwork-trace-id" ∷ [];
  allow_credentials = true;
}

unfoldable pub default_cross_site : CrossSiteRequestPolicy
default_cross_site = record {
  reject_untrusted_state_changing_origins = true;
  reject_cookie_auth_without_origin = true;
}

unfoldable pub default_header_security : HeaderSecurityPolicy
default_header_security = record {
  content_type_options = true;
  frame_options_deny = true;
  referrer_policy = some (lit "no-referrer");
  permissions_policy = some (lit "geolocation=(), microphone=(), camera=()");
  strict_transport_security = none;
}

unfoldable pub default_rate_limit : RateLimitPolicy
default_rate_limit = record {
  enabled = false;
  max_requests_per_window = 120;
  window_secs = 60;
  pre_auth_rate_limit = true;
  tenant_limit_after_auth = true;
  pre_auth_aggregate_multiplier = none;
}

unfoldable pub default_idempotency : IdempotencyPolicy
default_idempotency = record {
  require_for_retryable_commands = false;
  retention_secs = 86_400;
  max_cached_response_bytes = 1024 * 1024;
  require_body_hash_for_payload = true;
}

unfoldable pub default_sql_injection_guard : SqlInjectionGuardPolicy
default_sql_injection_guard = record {
  enabled = true;
  inspected_headers =
      lit "x-api-key"
      ∷ lit "x-sdkwork-access-token"
      ∷ lit "authorization"
      ∷ lit "access-token"
      ∷ lit "idempotency-key"
      ∷ lit "x-idempotency-fingerprint"
      ∷ lit "x-content-sha256"
      ∷ lit "x-sdkwork-agent-token"
      ∷ lit "cookie"
      ∷ lit "referer"
      ∷ lit "x-forwarded-for"
      ∷ lit "x-real-ip"
      ∷ lit "user-agent"
      ∷ [];
}

-- `SecurityPolicy::default`
unfoldable pub default_security : SecurityPolicy
unfolding default_cors
default_security = record {
  cors = default_cors;
  cross_site = default_cross_site;
  header_security = default_header_security;
  method_guard = standard_methods;
  request_size_limit = some (16 * 1024 * 1024);
  rate_limit = default_rate_limit;
  idempotency = default_idempotency;
  sql_injection_guard = default_sql_injection_guard;
  json_content_type = false;
}

-- `SecurityPolicy::production`
unfoldable pub production_security : SecurityPolicy
unfolding default_security
production_security = record default_security {
  cors = record default_cors { allow_all_origins = false };
  header_security = record default_header_security {
    strict_transport_security = some (lit "max-age=31536000; includeSubDomains");
  };
  rate_limit = record {
    enabled = true;
    max_requests_per_window = 120;
    window_secs = 60;
    pre_auth_rate_limit = true;
    tenant_limit_after_auth = true;
    pre_auth_aggregate_multiplier = none;
  };
  json_content_type = true;
}

unfoldable pub development_private_network_http_origin : Str
development_private_network_http_origin = lit "http://private-network:*"

unfoldable pub development_private_network_https_origin : Str
development_private_network_https_origin = lit "https://private-network:*"

-- `CorsPolicy::development_loopback`
unfoldable pub development_loopback : CorsPolicy
development_loopback = record default_cors {
  allowed_origins =
      lit "http://localhost:*"
      ∷ lit "http://127.0.0.1:*"
      ∷ lit "http://[::1]:*"
      ∷ lit "https://localhost:*"
      ∷ lit "https://127.0.0.1:*"
      ∷ lit "https://[::1]:*"
      ∷ [];
  allowed_headers = lit "*" ∷ [];
}

-- `CorsPolicy::development_private_network`
unfoldable pub development_private_network : CorsPolicy
development_private_network = record development_loopback {
  allowed_origins =
      development_loopback.allowed_origins
      ++ development_private_network_http_origin ∷ development_private_network_https_origin ∷ [];
}

-- registered_client_origins.rs
unfoldable pub registered_sdkwork_client_cors_origins : List Str
registered_sdkwork_client_cors_origins =
    lit "app://dsh"
    ∷ lit "app://birdcoder"
    ∷ lit "app://sdkwork"
    ∷ lit "app://dtupay"
    ∷ lit "dsh-app://app"
    ∷ lit "tauri://localhost"
    ∷ lit "https://servicewechat.com"
    ∷ []

-- the loop of `merge_registered_sdkwork_client_origins`
unfoldable pub merge_origins : List Str → List Str → List Str
merge_origins [] allowed = allowed
merge_origins (origin ∷ origins) allowed =
    merge_origins origins (if any (str_eq origin) allowed then allowed else allowed ++ origin ∷ [])

unfoldable pub with_registered_sdkwork_client_origins : CorsPolicy → CorsPolicy
unfolding merge_origins
with_registered_sdkwork_client_origins policy = record policy {
  allowed_origins = merge_origins registered_sdkwork_client_cors_origins policy.allowed_origins;
}
