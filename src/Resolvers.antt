-- ===== src/Resolvers.antt =====
-- crates/sdkwork-web-core/src/resolvers.rs: how the claims of an auth token and of an access token
-- become one principal (`WebRequestParserResolver`). The parsers of the tokens are interfaces of the
-- framework (parsers.rs), whose implementations verify signatures: here a record of functions.
pub mod DualToken
use sdkwork_web_framework.Base.{
  Bool, true, false, not, ◌&&◌, ◌||◌, Option, none, some, List, [], ◌∷◌, ◌++◌, any, is_empty,
  if◌then◌else◌, unwrap_or, or_else, Result, ok, err, ◌>>=◌, ◌>>◌,
}
use sdkwork_web_framework.Base.Text.{Str, lit, str_eq, trim, to_ascii_lowercase}
use sdkwork_web_framework.Base.Dict.{Dict}
use sdkwork_web_framework.Errors.{WebFrameworkError, invalid_credentials}
use sdkwork_web_framework.Principal.{
  WebRequestPrincipal, WebLoginScope, WebDeploymentMode, WebAuthLevel, WebSubjectType,
  normalize_organization_scope,
}
use sdkwork_web_framework.Principal.Context.{
  WebRequestPrincipalBuilder, build_principal, login_scope_of,
}
use sdkwork_web_framework.Surface.{WebEnvironment}

-- parsers.rs
pub record AuthTokenClaims : Type 0 where
  pub tenant_id : Option Str
  pub organization_id : Option Str
  pub login_scope : WebLoginScope
  pub user_id : Str
  pub session_id : Option Str
  pub app_id : Option Str
  pub auth_level : WebAuthLevel
  pub data_scope : List Str
  pub permission_scope : List Str
  pub subject_type : Option Str
  pub metadata : Dict Str

-- parsers.rs
pub record AccessTokenClaims : Type 0 where
  pub tenant_id : Str
  pub organization_id : Option Str
  pub login_scope : WebLoginScope
  pub user_id : Option Str
  pub session_id : Option Str
  pub app_id : Str
  pub environment : WebEnvironment
  pub deployment_mode : WebDeploymentMode
  pub data_scope : List Str
  pub permission_scope : List Str
  pub subject_type : Option Str
  pub metadata : Dict Str

-- the traits `AuthTokenParser` and `AccessTokenParser`
pub record TokenParsers : Type 0 where
  pub parse_auth_token : Str → Result AuthTokenClaims WebFrameworkError
  pub parse_access_token : Str → Result AccessTokenClaims WebFrameworkError

unfoldable pub require_optional_match :
    Str → Option Str → Option Str → Result (Unit {0}) WebFrameworkError
require_optional_match claim_name (some left) (some right) =
    if not (str_eq left right)
    then err (
        invalid_credentials
          (lit "auth token and access token " ++ claim_name ++ lit " contexts do not match"))
    else ok tt
require_optional_match claim_name _ _ = ok tt

unfoldable pub parse_subject_type : Option Str → WebSubjectType
parse_subject_type value =
    let text = to_ascii_lowercase (trim (unwrap_or value (lit "user"))) in
    if str_eq text (lit "service")
    then WebSubjectType.service
    else if any (str_eq text) (lit "api_key" ∷ lit "apikey" ∷ [])
    then WebSubjectType.api_key
    else if str_eq text (lit "system")
    then WebSubjectType.system
    else WebSubjectType.user

unfoldable pub login_scope_eq : WebLoginScope → WebLoginScope → Bool
login_scope_eq WebLoginScope.tenant WebLoginScope.tenant = true
login_scope_eq WebLoginScope.organization WebLoginScope.organization = true
login_scope_eq _ _ = false

-- the comparison of the resolved organization scopes
unfoldable pub check_organization_scopes :
    AuthTokenClaims → AccessTokenClaims → Result (Unit {0}) WebFrameworkError
check_organization_scopes auth_claims access =
    if not (
      str_eq (normalize_organization_scope auth_claims.organization_id)
        (normalize_organization_scope access.organization_id))
    then err (
        invalid_credentials
          (lit "auth token and access token organization_scope contexts do not match"))
    else ok tt

-- the login scope that follows from the organization scope
unfoldable pub resolved_login_scope : AuthTokenClaims → WebLoginScope
resolved_login_scope auth_claims =
    login_scope_of (some (normalize_organization_scope auth_claims.organization_id))

unfoldable pub check_login_scopes :
    AuthTokenClaims → AccessTokenClaims → Result (Unit {0}) WebFrameworkError
unfolding login_scope_eq resolved_login_scope
check_login_scopes auth_claims access =
    if not (login_scope_eq auth_claims.login_scope (resolved_login_scope auth_claims))
      || not (login_scope_eq access.login_scope (resolved_login_scope auth_claims))
    then err
        (invalid_credentials (lit "auth token and access token login_scope contexts do not match"))
    else ok tt

unfoldable pub dual_token_principal : AuthTokenClaims → AccessTokenClaims → WebRequestPrincipal
unfolding parse_subject_type resolved_login_scope
dual_token_principal auth_claims access = build_principal (record {
  tenant_id = some (unwrap_or auth_claims.tenant_id access.tenant_id);
  organization_id = some (normalize_organization_scope auth_claims.organization_id);
  login_scope = some (resolved_login_scope auth_claims);
  user_id = some auth_claims.user_id;
  session_id = or_else auth_claims.session_id access.session_id;
  app_id = some access.app_id;
  environment = some access.environment;
  deployment_mode = some access.deployment_mode;
  auth_level = some auth_claims.auth_level;
  data_scope = if is_empty access.data_scope then auth_claims.data_scope else access.data_scope;
  permission_scope =
      if is_empty access.permission_scope
      then auth_claims.permission_scope
      else access.permission_scope;
  api_key_id = none;
  subject_type = some (parse_subject_type (or_else access.subject_type auth_claims.subject_type));
  display_name = none;
  workspace_id = none;
  composition_id = none;
})

-- the checks of the two sets of claims, in their order
unfoldable pub combine_claims :
    AuthTokenClaims → AccessTokenClaims → Result WebRequestPrincipal WebFrameworkError
unfolding require_optional_match check_organization_scopes check_login_scopes dual_token_principal
combine_claims auth_claims access =
    require_optional_match (lit "tenant_id") auth_claims.tenant_id (some access.tenant_id)
    >> (require_optional_match (lit "user_id") (some auth_claims.user_id) access.user_id
        >> (require_optional_match (lit "session_id") auth_claims.session_id access.session_id
            >> (require_optional_match (lit "app_id") auth_claims.app_id (some access.app_id)
                >> (require_optional_match (lit "subject_type") auth_claims.subject_type
                      access.subject_type
                    >> (check_organization_scopes auth_claims access
                        >> (check_login_scopes auth_claims access
                            >> ok (dual_token_principal auth_claims access)))))))

-- `WebRequestParserResolver::resolve_dual_token`
unfoldable pub resolve_dual_token :
    TokenParsers → Str → Str → Result WebRequestPrincipal WebFrameworkError
unfolding combine_claims
resolve_dual_token parsers raw_auth_token raw_access_token = do
  auth_claims ← parsers.parse_auth_token raw_auth_token
  access ← parsers.parse_access_token raw_access_token
  combine_claims auth_claims access

unfoldable pub principal_from_access_token_claims : AccessTokenClaims → WebRequestPrincipal
unfolding parse_subject_type
principal_from_access_token_claims access = build_principal (record {
  tenant_id = some access.tenant_id;
  organization_id = some (normalize_organization_scope access.organization_id);
  login_scope = some access.login_scope;
  user_id = some (unwrap_or access.user_id []);
  session_id = access.session_id;
  app_id = some access.app_id;
  environment = some access.environment;
  deployment_mode = some access.deployment_mode;
  auth_level = some WebAuthLevel.anonymous;
  data_scope = access.data_scope;
  permission_scope = access.permission_scope;
  api_key_id = none;
  subject_type = some (parse_subject_type access.subject_type);
  display_name = none;
  workspace_id = none;
  composition_id = none;
})

-- `WebRequestParserResolver::resolve_access_token`
unfoldable pub resolve_access_token :
    TokenParsers → Str → Result WebRequestPrincipal WebFrameworkError
unfolding principal_from_access_token_claims
resolve_access_token parsers raw_access_token = do
  access ← parsers.parse_access_token raw_access_token
  ok (principal_from_access_token_claims access)
