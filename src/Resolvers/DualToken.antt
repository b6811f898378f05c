-- ===== src/Resolvers/DualToken.antt =====
-- What a principal of two tokens stands for.
use sdkwork_web_framework.Base.{
  Option, none, some, unwrap_or, ◌≡◌, refl, sym, ap, ◌∙◌, Bool-cases, inl, inr, Result, ok, err,
  ◌>>◌,
}
use sdkwork_web_framework.Base.Text.{Str, lit, str_eq}
use sdkwork_web_framework.Base.Text.Laws.{str_eq_sound}
use sdkwork_web_framework.Errors.{WebFrameworkError}
use sdkwork_web_framework.Principal.{
  WebRequestPrincipal, normalize_organization_scope, normalize_organization_scope-canonical,
}
use sdkwork_web_framework.Principal.Context.{build_principal}
use sdkwork_web_framework.Resolvers.{
  AuthTokenClaims, AccessTokenClaims, require_optional_match, check_organization_scopes,
  check_login_scopes, dual_token_principal, combine_claims,
}

-- Two claims that are both there are the same.
abbrev pub Agrees : Option Str → Option Str → Type 0
Agrees (some left) (some right) = left ≡ right
Agrees _ _ = Unit

require_optional_match-Agrees :
    (claim_name : Str) (left right : Option Str)
    → require_optional_match claim_name left right ≡ ok tt
    → Agrees left right
unfolding require_optional_match
require_optional_match-Agrees claim_name (some left) (some right) h =
    elim (Bool-cases (str_eq left right)) [
      | inl same ↦ str_eq_sound left right same
      | inr differ ↦ cc (rw (require_optional_match, differ) at h)
    ]
require_optional_match-Agrees claim_name _ _ h = tt

after_check :
    {A : Type 0} (r : Result (Unit {0}) WebFrameworkError) (k : Result A WebFrameworkError) (a : A)
    → (r >> k) ≡ ok a
    → (r ≡ ok tt) × (k ≡ ok a)
after_check (ok u) k a h = (refl, h)
after_check (err e) k a h = cc h

organization_scopes-agree :
    (auth_claims : AuthTokenClaims) (access : AccessTokenClaims)
    → check_organization_scopes auth_claims access ≡ ok tt
    → normalize_organization_scope auth_claims.organization_id
      ≡ normalize_organization_scope access.organization_id
unfolding check_organization_scopes
organization_scopes-agree auth_claims access h =
    elim (Bool-cases (
      str_eq (normalize_organization_scope auth_claims.organization_id)
        (normalize_organization_scope access.organization_id))) [
          | inl same ↦ str_eq_sound _ _ same
          | inr differ ↦ cc (rw (check_organization_scopes, differ) at h)
        ]

agreed_tenant :
    (claimed : Option Str) (tenant : Str)
    → Agrees claimed (some tenant)
    → unwrap_or claimed tenant ≡ tenant
agreed_tenant none tenant h = refl
agreed_tenant (some claimed) tenant h = h

-- Who the principal of two tokens is: the tenant and the application of the access token, the user of
-- the auth token, and the one organization scope of both.
pub record Stands (auth_claims : AuthTokenClaims) (access : AccessTokenClaims)
    (principal : WebRequestPrincipal) : Type 0 where
  pub tenant : principal.tenancy.tenant_id ≡ access.tenant_id
  pub organization :
      principal.tenancy.organization_id ≡ some (normalize_organization_scope access.organization_id)
  pub user : principal.subject.user_id ≡ auth_claims.user_id
  pub app : principal.app.app_id ≡ access.app_id
  pub same_tenant : Agrees auth_claims.tenant_id (some access.tenant_id)
  pub same_user : Agrees (some auth_claims.user_id) access.user_id
  pub same_session : Agrees auth_claims.session_id access.session_id
  pub same_app : Agrees auth_claims.app_id (some access.app_id)
  pub same_organization :
      normalize_organization_scope auth_claims.organization_id
      ≡ normalize_organization_scope access.organization_id
  pub same_subject_type : Agrees auth_claims.subject_type access.subject_type

-- A pair of tokens whose claims are combined agrees in tenant, user, session, application and
-- type of subject wherever both carry them, and in the resolved organization scope; the
-- principal has the tenant and the application of the access token, the user of the auth token,
-- and that organization.
pub combine_claims-Stands :
    (auth_claims : AuthTokenClaims) (access : AccessTokenClaims) (principal : WebRequestPrincipal)
    → combine_claims auth_claims access ≡ ok principal
    → Stands auth_claims access principal
unfolding combine_claims dual_token_principal build_principal
combine_claims-Stands auth_claims access principal h =
    let built_from = dual_token_principal auth_claims access in
    let tenants =
      require_optional_match (lit "tenant_id") auth_claims.tenant_id (some access.tenant_id) in
    let users = require_optional_match (lit "user_id") (some auth_claims.user_id) access.user_id in
    let sessions =
      require_optional_match (lit "session_id") auth_claims.session_id access.session_id in
    let apps = require_optional_match (lit "app_id") auth_claims.app_id (some access.app_id) in
    let subjects =
      require_optional_match (lit "subject_type") auth_claims.subject_type access.subject_type in
    let organizations = check_organization_scopes auth_claims access in
    let login : Result WebRequestPrincipal WebFrameworkError =
      check_login_scopes auth_claims access >> ok built_from in
    let (tenant, h1) =
      after_check tenants (users >> (sessions >> (apps >> (subjects >> (organizations >> login)))))
        principal h in
    let (user, h2) =
      after_check users (sessions >> (apps >> (subjects >> (organizations >> login)))) principal
        h1 in
    let (session, h3) =
      after_check sessions (apps >> (subjects >> (organizations >> login))) principal h2 in
    let (app, h4) = after_check apps (subjects >> (organizations >> login)) principal h3 in
    let (subject, h5) = after_check subjects (organizations >> login) principal h4 in
    let (organization, h6) = after_check organizations login principal h5 in
    let (logged, h7) =
      after_check (check_login_scopes auth_claims access) (ok built_from) principal h6 in
    let built : dual_token_principal auth_claims access ≡ principal = cc h7 in
    let same_tenant =
      require_optional_match-Agrees (lit "tenant_id") auth_claims.tenant_id (some access.tenant_id)
        tenant in
    let canonical = normalize_organization_scope-canonical auth_claims.organization_id in
    record {
      tenant =
          ap (λ p. p.tenancy.tenant_id) (sym built)
          ∙ agreed_tenant auth_claims.tenant_id access.tenant_id same_tenant;
      organization =
          ap (λ p. p.tenancy.organization_id) (sym built)
          ∙ ap some (canonical.2 ∙ organization_scopes-agree auth_claims access organization);
      user = ap (λ p. p.subject.user_id) (sym built);
      app = ap (λ p. p.app.app_id) (sym built);
      same_tenant = same_tenant;
      same_user =
          require_optional_match-Agrees (lit "user_id") (some auth_claims.user_id) access.user_id
            user;
      same_session =
          require_optional_match-Agrees (lit "session_id") auth_claims.session_id access.session_id
            session;
      same_app =
          require_optional_match-Agrees (lit "app_id") auth_claims.app_id (some access.app_id) app;
      same_organization = organization_scopes-agree auth_claims access organization;
      same_subject_type =
          require_optional_match-Agrees (lit "subject_type") auth_claims.subject_type
            access.subject_type subject;
    }
