-- ===== src/Tests/Resolvers.antt =====
-- The combination of two tokens at concrete claims.
use sdkwork_web_framework.Principal.Context.{login_scope_of}
use sdkwork_web_framework.Base.{none, some, [], ◌∷◌, ◌≡◌, refl, ok}
use sdkwork_web_framework.Base.Text.{
  lit, is_whitespace, str_eq, trim, trim_end, trim_matches, trim_start,
}
use sdkwork_web_framework.Principal.{
  WebLoginScope, WebDeploymentMode, WebAuthLevel, normalize_organization_scope,
}
use sdkwork_web_framework.Resolvers.{
  AuthTokenClaims, AccessTokenClaims, combine_claims, dual_token_principal,
}
use sdkwork_web_framework.Resolvers.DualToken.{Stands, combine_claims-Stands}
use sdkwork_web_framework.Surface.{WebEnvironment}

-- a login of tenant t1, at the level of the tenant
abbrev login : AuthTokenClaims
login = record {
  tenant_id = some (lit "t1");
  organization_id = none;
  login_scope = WebLoginScope.tenant;
  user_id = lit "u1";
  session_id = some (lit "s1");
  app_id = none;
  auth_level = WebAuthLevel.password;
  data_scope = [];
  permission_scope = lit "orders.*" ∷ [];
  subject_type = none;
  metadata = [];
}

-- the same login as an application sees it: its organization is written as the sentinel
abbrev access : AccessTokenClaims
access = record {
  tenant_id = lit "t1";
  organization_id = some (lit "0");
  login_scope = WebLoginScope.tenant;
  user_id = some (lit "u1");
  session_id = none;
  app_id = lit "shop";
  environment = WebEnvironment.prod;
  deployment_mode = WebDeploymentMode.saas;
  data_scope = [];
  permission_scope = [];
  subject_type = some (lit "user");
  metadata = [];
}

tokens-combine : combine_claims login access ≡ ok (dual_token_principal login access)
unfolding combine_claims str_eq lit normalize_organization_scope trim trim_matches trim_end
    trim_start is_whitespace login_scope_of
tokens-combine = refl

combine_claims-Stands_example : Stands login access (dual_token_principal login access)
combine_claims-Stands_example =
    combine_claims-Stands login access (dual_token_principal login access) tokens-combine
