-- ===== src/Principal/Context.antt =====
-- crates/sdkwork-web-core/src/request_context.rs: the context of a request, what it requires of its
-- principal, and the builder of principals.
use sdkwork_web_framework.Principal.Permissions.{permission_scope_matches_any}
use sdkwork_web_framework.Base.{
  Bool, false, not, ◌&&◌, Option, none, some, List, [], is_empty, if◌then◌else◌, unwrap_or, Result,
  ok, err, ◌>>=◌,
}
use sdkwork_web_framework.Base.Text.{Str, lit, str_eq, trim}
use sdkwork_web_framework.Contract.{RateLimitTier}
use sdkwork_web_framework.Errors.{WebFrameworkError, missing_credentials}
use sdkwork_web_framework.Principal.{
  WebRequestPrincipal, WebLoginScope, WebDeploymentMode, WebAuthLevel, WebSubjectType,
  normalize_organization_scope,
}
use sdkwork_web_framework.Surface.{WebApiSurface, WebEnvironment}

pub data WebAuthMode : Type 0 where
  public bootstrap_body credential_entry_bootstrap refresh_token api_key : WebAuthMode
  ingress_token agent_token oauth dual_token compatibility : WebAuthMode

pub data WebClientKind : Type 0 where
  browser mobile desktop server unknown_client : WebClientKind

pub record WebTransportFacts : Type 0 where
  pub path : Str
  pub method : Str
  pub auth_token_present : Bool
  pub access_token_present : Bool
  pub api_key_present : Bool
  pub ingress_token_present : Bool
  pub oauth_bearer_present : Bool
  pub agent_token_present : Bool

pub record WebOperationBinding : Type 0 where
  pub operation_id : Str
  pub route_template : Str
  pub rate_limit_tier : Option RateLimitTier
  pub idempotent : Bool

pub record WebRequestContext : Type 0 where
  pub request_id : Str
  pub api_surface : WebApiSurface
  pub auth_mode : WebAuthMode
  pub transport : WebTransportFacts
  pub principal : Option WebRequestPrincipal
  pub locale : Option Str
  pub client_kind : Option WebClientKind
  pub operation : Option WebOperationBinding
  pub trace_id : Option Str
  pub idempotency_key : Option Str

unfoldable pub require_principal : WebRequestContext → Result WebRequestPrincipal WebFrameworkError
require_principal ctx = elim ctx.principal [
  | none ↦ err (missing_credentials (lit "authenticated principal is required"))
  | some principal ↦ ok principal
]

unfoldable pub require_tenant_id : WebRequestContext → Result Str WebFrameworkError
unfolding require_principal
require_tenant_id ctx = do principal ← require_principal ctx; ok principal.tenancy.tenant_id

unfoldable pub require_app_id : WebRequestContext → Result Str WebFrameworkError
unfolding require_principal
require_app_id ctx = do principal ← require_principal ctx; ok principal.app.app_id

unfoldable pub has_permission : WebRequestContext → Str → Bool
has_permission ctx grant = elim ctx.principal [
  | none ↦ false
  | some principal ↦ permission_scope_matches_any principal.scopes.permission_scope grant
]

-- `WebLoginScope::from_organization_id`
unfoldable pub login_scope_of : Option Str → WebLoginScope
login_scope_of none = WebLoginScope.tenant
login_scope_of (some value) =
    let trimmed = trim value in
    if not (is_empty trimmed) && not (str_eq trimmed (lit "0"))
    then WebLoginScope.organization
    else WebLoginScope.tenant

pub record WebRequestPrincipalBuilder : Type 0 where
  pub tenant_id : Option Str
  pub organization_id : Option Str
  pub login_scope : Option WebLoginScope
  pub user_id : Option Str
  pub session_id : Option Str
  pub app_id : Option Str
  pub environment : Option WebEnvironment
  pub deployment_mode : Option WebDeploymentMode
  pub auth_level : Option WebAuthLevel
  pub data_scope : List Str
  pub permission_scope : List Str
  pub api_key_id : Option Str
  pub subject_type : Option WebSubjectType
  pub display_name : Option Str
  pub workspace_id : Option Str
  pub composition_id : Option Str

-- `WebRequestPrincipalBuilder::build`
unfoldable pub build_principal : WebRequestPrincipalBuilder → WebRequestPrincipal
unfolding login_scope_of
build_principal b =
    let organization_id = normalize_organization_scope b.organization_id in
    record {
      tenancy = record {
        tenant_id = unwrap_or b.tenant_id [];
        organization_id = some organization_id;
        login_scope = unwrap_or b.login_scope (login_scope_of (some organization_id));
      };
      app = record {
        app_id = unwrap_or b.app_id [];
        environment = unwrap_or b.environment WebEnvironment.dev;
        deployment_mode = unwrap_or b.deployment_mode WebDeploymentMode.local;
        workspace_id = b.workspace_id;
        composition_id = b.composition_id;
      };
      subject = record {
        user_id = unwrap_or b.user_id [];
        session_id = b.session_id;
        subject_type = unwrap_or b.subject_type WebSubjectType.user;
        display_name = b.display_name;
      };
      auth = record {
        auth_level = unwrap_or b.auth_level WebAuthLevel.anonymous;
        api_key_id = b.api_key_id;
      };
      scopes = record { data_scope = b.data_scope; permission_scope = b.permission_scope };
    }
