-- ===== src/Contract.antt =====
-- crates/sdkwork-web-contract/src/lib.rs: the types of a route manifest, the constructor of a
-- route and the predicates on its authentication profile.
pub mod Validation
use sdkwork_web_framework.Base.{Bool, true, false, Option, none, some, List, ◌≡◌, ◌↔◌, arith}
use sdkwork_web_framework.Base.Text.{Str, lit}

pub data RateLimitTier : Type 0 where
  auth_critical open_api_default upload search_tier bulk worker internal : RateLimitTier

pub data RouteAuth : Type 0 where
  public bootstrap_body credential_entry_bootstrap dual_token dual_token_or_anonymous : RouteAuth
  api_key ingress_token oauth open_api_flexible api_key_or_dual_token : RouteAuth
  open_api_bearer_flexible refresh_token agent_token compatibility : RouteAuth

unfoldable pub RouteAuth-discrete : Discrete RouteAuth
RouteAuth-discrete = hlevel

-- `a == b` of the derived `PartialEq`
unfoldable pub auth_eq : RouteAuth → RouteAuth → Bool
unfolding RouteAuth-discrete
auth_eq a b = elim (RouteAuth-discrete a b) [ yes p ↦ true | no n ↦ false ]

pub auth_eq_iff : (a b : RouteAuth) → (auth_eq a b ≡ true) ↔ (a ≡ b)
unfolding auth_eq
auth_eq_iff a b = ground arith

pub data CompatibilitySecuritySchemeKind : Type 0 where
  api_key_header : Str → CompatibilitySecuritySchemeKind
  http_bearer : Option Str → CompatibilitySecuritySchemeKind

pub record CompatibilitySecurityScheme : Type 0 where
  pub name : Str
  pub kind : CompatibilitySecuritySchemeKind

pub record CompatibilitySecurityRequirement : Type 0 where
  pub scheme_names : List Str

pub record CompatibilityAuth : Type 0 where
  pub external_protocol_id : Str
  pub schemes : List CompatibilitySecurityScheme
  pub requirements : List CompatibilitySecurityRequirement

pub data HttpMethod : Type 0 where
  delete get patch post put : HttpMethod

pub record HttpRoute : Type 0 where
  pub method : HttpMethod
  pub path : Str
  pub tag : Str
  pub operation_id : Str
  pub auth : RouteAuth
  pub idempotent : Bool
  pub rate_limit_tier : Option RateLimitTier
  pub log_retention : Option Str
  pub required_permission : Option Str
  pub alternate_permissions : Option (List Str)
  pub forbid_credential_headers : Bool
  pub compatibility_auth : Option CompatibilityAuth
  pub compatibility_openapi_operation : Option Str
  pub external_wire_protocol : Option Str

-- `HttpRoute::new`
unfoldable pub new : HttpMethod → Str → Str → Str → RouteAuth → HttpRoute
new method path tag operation_id auth = record {
  method = method;
  path = path;
  tag = tag;
  operation_id = operation_id;
  auth = auth;
  idempotent = false;
  rate_limit_tier = none;
  log_retention = none;
  required_permission = none;
  alternate_permissions = none;
  forbid_credential_headers = false;
  compatibility_auth = none;
  compatibility_openapi_operation = none;
  external_wire_protocol = none;
}

unfoldable pub skips_credential_resolution : RouteAuth → Bool
skips_credential_resolution public = true
skips_credential_resolution bootstrap_body = true
skips_credential_resolution refresh_token = true
skips_credential_resolution _ = false

unfoldable pub is_anonymous : RouteAuth → Bool
is_anonymous public = true
is_anonymous _ = false

unfoldable pub is_optional_credential : RouteAuth → Bool
is_optional_credential dual_token_or_anonymous = true
is_optional_credential _ = false

unfoldable pub requires_access_token_only : RouteAuth → Bool
requires_access_token_only credential_entry_bootstrap = true
requires_access_token_only _ = false

unfoldable pub is_bootstrap_body_credential_mode : RouteAuth → Bool
is_bootstrap_body_credential_mode bootstrap_body = true
is_bootstrap_body_credential_mode _ = false

unfoldable pub requires_dual_token_headers : RouteAuth → Bool
requires_dual_token_headers dual_token = true
requires_dual_token_headers _ = false

unfoldable pub is_open_api_credential_mode : RouteAuth → Bool
is_open_api_credential_mode api_key = true
is_open_api_credential_mode oauth = true
is_open_api_credential_mode open_api_flexible = true
is_open_api_credential_mode api_key_or_dual_token = true
is_open_api_credential_mode _ = false

unfoldable pub is_agent_token_credential_mode : RouteAuth → Bool
is_agent_token_credential_mode agent_token = true
is_agent_token_credential_mode _ = false

unfoldable pub is_ingress_token_credential_mode : RouteAuth → Bool
is_ingress_token_credential_mode ingress_token = true
is_ingress_token_credential_mode _ = false

unfoldable pub auth_profile_label : RouteAuth → Str
auth_profile_label public = lit "anonymous"
auth_profile_label bootstrap_body = lit "bootstrap-body"
auth_profile_label credential_entry_bootstrap = lit "credential-entry-bootstrap"
auth_profile_label refresh_token = lit "refresh-token"
auth_profile_label dual_token = lit "dual-token"
auth_profile_label dual_token_or_anonymous = lit "dual-token-or-anonymous"
auth_profile_label api_key = lit "api-key"
auth_profile_label ingress_token = lit "ingress-token"
auth_profile_label oauth = lit "oauth"
auth_profile_label open_api_flexible = lit "open-api-flexible"
auth_profile_label open_api_bearer_flexible = lit "open-api-bearer-flexible"
auth_profile_label api_key_or_dual_token = lit "api-key-or-dual-token"
auth_profile_label agent_token = lit "agent-token"
auth_profile_label compatibility = lit "compatibility"
