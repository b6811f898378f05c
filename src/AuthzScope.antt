-- ===== src/AuthzScope.antt =====
-- crates/sdkwork-web-core/src/authz_scope.rs: the provider that resolves and caches
-- authorization scopes (the budgets of rendered tokens are in Budget). The source of scopes is a
-- port that applications implement, so its answer is an argument.
pub mod Budget
pub mod Isolation
pub mod Materialize
use sdkwork_web_framework.Base.{
  ℕ, ◌+◌, ◌-◌, ◌*◌, ◌/◌, Bool, true, false, not, ◌&&◌, Option, none, some, List, ◌++◌, ◌∷◌, [],
  if◌then◌else◌, ltb, unwrap_or, is_empty, Result, ok, err,
}
use sdkwork_web_framework.Base.Text.{Str, lit}
use sdkwork_web_framework.Surface.{WebApiSurface, WebEnvironment, dev, test, prod}
use sdkwork_web_framework.Principal.{WebDeploymentMode, saas, private, local, WebRequestPrincipal}
use sdkwork_web_framework.Errors.{WebFrameworkError, internal_server_error, forbidden, with_reason}
use sdkwork_web_framework.PolicyCache.{TtlCache, new_cache, get_valid, insert, invalidate_prefix}
use sdkwork_web_framework.PolicyCache.Keys.{debug_surface}

pub record AuthorizationScopeSubject : Type 0 where
  pub tenant_id : Str
  pub organization_id : Option Str
  pub user_id : Str
  pub app_id : Str
  pub session_id : Option Str
  pub environment : WebEnvironment
  pub deployment_mode : WebDeploymentMode
  pub api_surface : WebApiSurface

unfoldable pub for_principal : WebRequestPrincipal → WebApiSurface → AuthorizationScopeSubject
for_principal principal api_surface = record {
  tenant_id = principal.tenancy.tenant_id;
  organization_id = principal.tenancy.organization_id;
  user_id = principal.subject.user_id;
  app_id = principal.app.app_id;
  session_id = principal.subject.session_id;
  environment = principal.app.environment;
  deployment_mode = principal.app.deployment_mode;
  api_surface = api_surface;
}

-- The derived `Debug` of the environments and deployment modes.
unfoldable pub debug_environment : WebEnvironment → Str
debug_environment dev = lit "Dev"
debug_environment test = lit "Test"
debug_environment prod = lit "Prod"

unfoldable pub debug_deployment : WebDeploymentMode → Str
debug_deployment saas = lit "Saas"
debug_deployment private = lit "Private"
debug_deployment local = lit "Local"

-- `unwrap_or("-")`
unfoldable pub or_dash : Option Str → Str
or_dash o = unwrap_or o (b'-' ∷ [])

unfoldable pub cache_key : AuthorizationScopeSubject → Str
unfolding or_dash
cache_key s =
    s.tenant_id
    ++ b'|'
      ∷ (or_dash s.organization_id
          ++ b'|'
            ∷ (s.user_id
                ++ b'|'
                  ∷ (s.app_id
                      ++ b'|'
                        ∷ (or_dash s.session_id
                            ++ b'|'
                              ∷ (debug_environment s.environment
                                  ++ b'|'
                                    ∷ (debug_deployment s.deployment_mode
                                        ++ b'|' ∷ debug_surface s.api_surface))))))

unfoldable pub tenant_prefix : AuthorizationScopeSubject → Str
tenant_prefix s = s.tenant_id ++ b'|' ∷ []

unfoldable pub subject_prefix : AuthorizationScopeSubject → Str
unfolding or_dash
subject_prefix s =
    s.tenant_id ++ b'|' ∷ (or_dash s.organization_id ++ b'|' ∷ (s.user_id ++ b'|' ∷ []))

pub record WebAuthorizationScope : Type 0 where
  pub data_scope : List Str
  pub permission_scope : List Str
  pub scope_revision : Option Str

unfoldable pub from_principal : WebRequestPrincipal → WebAuthorizationScope
from_principal principal = record {
  data_scope = principal.scopes.data_scope;
  permission_scope = principal.scopes.permission_scope;
  scope_revision = none;
}

unfoldable pub apply_to : WebAuthorizationScope → WebRequestPrincipal → WebRequestPrincipal
apply_to scope principal = record principal {
  scopes = record { data_scope = scope.data_scope; permission_scope = scope.permission_scope };
}

pub data AuthorizationScopeFallback : Type 0 where
  deny credential_claims : AuthorizationScopeFallback

abbrev pub ScopeCache : Type 0
ScopeCache = TtlCache (Option WebAuthorizationScope)

-- What the port answers for a subject.
abbrev pub ScopeAnswer : Type 0
ScopeAnswer = Result (Option WebAuthorizationScope) WebFrameworkError

unfoldable pub apply_fallback :
    AuthorizationScopeFallback
    → AuthorizationScopeSubject
    → WebAuthorizationScope
    → Result WebAuthorizationScope WebFrameworkError
unfolding or_dash
apply_fallback credential_claims subject credential_scope = ok credential_scope
apply_fallback deny subject credential_scope = err (
    with_reason
      (forbidden (
        lit "authorization scope is not resolvable server-side for tenant "
        ++ subject.tenant_id
        ++ lit " subject "
        ++ subject.user_id
        ++ lit " (session "
        ++ or_dash subject.session_id
        ++ lit "); refusing to trust credential-carried scope"))
      (lit "authorization-scope-unavailable"))

-- what a cached answer, positive or negative, resolves to
unfoldable pub resolve_with :
    AuthorizationScopeFallback
    → AuthorizationScopeSubject
    → WebAuthorizationScope
    → Option WebAuthorizationScope
    → Result WebAuthorizationScope WebFrameworkError
resolve_with fallback subject credential_scope (some scope) = ok scope
resolve_with fallback subject credential_scope none =
    apply_fallback fallback subject credential_scope

-- `materialize`: `source` is none for a provider without one, and otherwise what it answers; the
-- cache is read at `now` and filled at `later`.
unfoldable pub materialize :
    AuthorizationScopeFallback
    → Option (AuthorizationScopeSubject → ScopeAnswer)
    → AuthorizationScopeSubject
    → WebAuthorizationScope
    → ℕ
    → ℕ
    → ScopeCache
    → ScopeCache × Result WebAuthorizationScope WebFrameworkError
unfolding resolve_with apply_fallback
materialize fallback source subject credential_scope now later cache =
    let key = cache_key subject in
    let (cache', hit) = get_valid key now cache in
    elim hit [
      | some cached ↦ (cache', resolve_with fallback subject credential_scope cached)
      | none ↦ elim source [
        | none ↦ (cache', apply_fallback fallback subject credential_scope)
        | some resolve ↦ elim (resolve subject) [
          | err e ↦ (cache', err e)
          | ok answer ↦ (
            insert key answer later cache',
            resolve_with fallback subject credential_scope answer,
          )
        ]
      ]
    ]

unfoldable pub invalidate_subject : AuthorizationScopeSubject → ScopeCache → ScopeCache
invalidate_subject subject cache = invalidate_prefix (cache_key subject) cache

unfoldable pub invalidate_user : AuthorizationScopeSubject → ScopeCache → ScopeCache
invalidate_user subject cache = invalidate_prefix (subject_prefix subject) cache

unfoldable pub invalidate_tenant : Str → ScopeCache → ScopeCache
invalidate_tenant tenant_id cache = invalidate_prefix (tenant_id ++ b'|' ∷ []) cache

-- `ServerResolvedScopeResolver::enrich`
unfoldable pub enrich :
    AuthorizationScopeFallback
    → Option (AuthorizationScopeSubject → ScopeAnswer)
    → WebApiSurface
    → WebRequestPrincipal
    → ℕ
    → ℕ
    → ScopeCache
    → ScopeCache × Result WebRequestPrincipal WebFrameworkError
unfolding materialize for_principal from_principal apply_to
enrich fallback source api_surface principal now later cache =
    let (cache', resolved) =
      materialize fallback source (for_principal principal api_surface) (from_principal principal)
        now later cache in
    elim resolved [ err e ↦ (cache', err e) | ok scope ↦ (cache', ok (apply_to scope principal)) ]
