-- ===== src/Principal.antt =====
-- crates/sdkwork-web-core/src/request_context.rs: the principal of a request, and the one
-- representation of its organization scope.
pub mod Permissions
pub mod Context
use sdkwork_web_framework.Base.{
  Bool, false, not, ◌&&◌, Option, none, some, List, if◌then◌else◌, is_empty, ◌≡◌, refl, arith,
  Bool-cases, inl, inr,
}
use sdkwork_web_framework.Base.Text.{
  Str, lit, str_eq, trim, trim_matches, trim_end, trim_start, is_whitespace,
}
use sdkwork_web_framework.Base.Text.Laws.{trim_idem}
use sdkwork_web_framework.Surface.{WebEnvironment}

pub data WebDeploymentMode : Type 0 where
  saas private local : WebDeploymentMode

pub data WebLoginScope : Type 0 where
  tenant organization : WebLoginScope

pub record WebTenancyContext : Type 0 where
  pub tenant_id : Str
  pub organization_id : Option Str
  pub login_scope : WebLoginScope

pub record WebAppContext : Type 0 where
  pub app_id : Str
  pub environment : WebEnvironment
  pub deployment_mode : WebDeploymentMode
  pub workspace_id : Option Str
  pub composition_id : Option Str

pub data WebSubjectType : Type 0 where
  user service api_key system : WebSubjectType

pub record WebSubjectContext : Type 0 where
  pub user_id : Str
  pub session_id : Option Str
  pub subject_type : WebSubjectType
  pub display_name : Option Str

pub data WebAuthLevel : Type 0 where
  anonymous password mfa system_level api_key_level : WebAuthLevel

pub record WebAuthContext : Type 0 where
  pub auth_level : WebAuthLevel
  pub api_key_id : Option Str

pub record WebScopeContext : Type 0 where
  pub data_scope : List Str
  pub permission_scope : List Str

pub record WebRequestPrincipal : Type 0 where
  pub tenancy : WebTenancyContext
  pub app : WebAppContext
  pub subject : WebSubjectContext
  pub auth : WebAuthContext
  pub scopes : WebScopeContext

-- `TENANT_LEVEL_ORGANIZATION_ID`
unfoldable pub tenant_level_organization_id : Str
tenant_level_organization_id = lit "0"

unfoldable pub normalize_organization_scope : Option Str → Str
unfolding tenant_level_organization_id
normalize_organization_scope none = tenant_level_organization_id
normalize_organization_scope (some value) =
    let trimmed = trim value in
    if not (is_empty trimmed) && not (str_eq trimmed tenant_level_organization_id)
    then trimmed
    else tenant_level_organization_id

unfoldable pub is_tenant_level_organization_scope : Str → Bool
is_tenant_level_organization_scope value = str_eq (trim value) tenant_level_organization_id

-- `organization_scope` and `is_tenant_level` of `WebTenancyContext`
unfoldable pub organization_scope : WebTenancyContext → Str
organization_scope tenancy = normalize_organization_scope tenancy.organization_id

unfoldable pub is_tenant_level : WebTenancyContext → Bool
is_tenant_level tenancy = is_tenant_level_organization_scope (organization_scope tenancy)

-- The organization scope has one representation: it is never blank, it carries no white space at
-- its ends, normalizing it again changes nothing, and it is the tenant level exactly when it is
-- the sentinel.
pub normalize_organization_scope-canonical :
    (o : Option Str)
    → (is_empty (normalize_organization_scope o) ≡ false)
      × (trim (normalize_organization_scope o) ≡ normalize_organization_scope o)
      × (normalize_organization_scope (some (normalize_organization_scope o))
          ≡ normalize_organization_scope o)
      × (is_tenant_level_organization_scope (normalize_organization_scope o)
          ≡ str_eq (normalize_organization_scope o) tenant_level_organization_id)
unfolding normalize_organization_scope is_tenant_level_organization_scope lit trim trim_matches
    trim_end trim_start is_whitespace str_eq
normalize_organization_scope-canonical none = (refl, refl, refl, refl)
normalize_organization_scope-canonical (some value) =
    elim (Bool-cases
      (not (is_empty (trim value)) && not (str_eq (trim value) tenant_level_organization_id))) [
        | inl own ↦ rw (own, trim_idem value, own) (ground arith, refl, refl, refl)
        | inr level ↦ rw level (refl, refl, refl, refl)
      ]
