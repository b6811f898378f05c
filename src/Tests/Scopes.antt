-- ===== src/Tests/Scopes.antt =====
-- Authorization scopes, policy caches and principals at concrete inputs.
use sdkwork_web_framework.Base.{
  ℕ, ◌+◌, ◌&&◌, Option, none, some, [], ◌∷◌, ◌≡◌, refl, arith, ltb, if◌then◌else◌, Result, ok, err,
}
use sdkwork_web_framework.Base.Text.{Str, str_eq}
use sdkwork_web_framework.Base.Dict
use sdkwork_web_framework.Surface.{app_api, prod}
use sdkwork_web_framework.Principal.{saas}
use sdkwork_web_framework.PolicyCache.{TtlCache, get_valid, DynamicPolicyCaches, resolve_cached}
use sdkwork_web_framework.PolicyCache.Laws.{lookup}
use sdkwork_web_framework.PolicyCache.ReadThrough.{resolve_cached-repeats}
use sdkwork_web_framework.AuthzScope.{
  AuthorizationScopeSubject, WebAuthorizationScope, deny, ScopeCache, ScopeAnswer, cache_key,
  or_dash, materialize, invalidate_user,
}
use sdkwork_web_framework.AuthzScope.Isolation.{
  HasPlainIds, HasNoDash, same_id, cache_key_injective, invalidate_user-exact,
}
use sdkwork_web_framework.AuthzScope.Materialize.{materialize-deny}

abbrev alice : AuthorizationScopeSubject
alice = record {
  tenant_id = b't' ∷ [];
  organization_id = some (b'o' ∷ []);
  user_id = b'a' ∷ [];
  app_id = b'p' ∷ [];
  session_id = none;
  environment = prod;
  deployment_mode = saas;
  api_surface = app_api;
}

-- the same user in another organization
abbrev elsewhere : AuthorizationScopeSubject
elsewhere = record alice { organization_id = some (b'q' ∷ []) }

abbrev read_scope : WebAuthorizationScope
read_scope = record { data_scope = []; permission_scope = (b'r' ∷ []) ∷ []; scope_revision = none }

abbrev full_scope : WebAuthorizationScope
full_scope = record { data_scope = []; permission_scope = (b'*' ∷ []) ∷ []; scope_revision = none }

abbrev scopes : ScopeCache
scopes = record { ttl = 15; entries = [] }

abbrev source : AuthorizationScopeSubject → ScopeAnswer
source subject = ok (some read_scope)

alice-HasPlainIds : HasPlainIds alice
unfolding or_dash
alice-HasPlainIds = record {
  tenant = (refl, tt);
  organization = (refl, tt);
  user = (refl, tt);
  app = (refl, tt);
  session = (refl, tt);
}

elsewhere-HasPlainIds : HasPlainIds elsewhere
unfolding or_dash
elsewhere-HasPlainIds = record {
  tenant = (refl, tt);
  organization = (refl, tt);
  user = (refl, tt);
  app = (refl, tt);
  session = (refl, tt);
}

alice-HasNoDash : HasNoDash alice
alice-HasNoDash = record { organization = λ e. ground (arith, e); session = λ e. ground (arith, e) }

cache_key_injective_example : alice ≡ alice
cache_key_injective_example =
    cache_key_injective alice alice alice-HasPlainIds alice-HasPlainIds alice-HasNoDash
      alice-HasNoDash refl

invalidate_user-exact_example : lookup (cache_key elsewhere) 5 (invalidate_user alice scopes) ≡ (
    if str_eq alice.tenant_id elsewhere.tenant_id
      && (same_id alice.organization_id elsewhere.organization_id
          && str_eq alice.user_id elsewhere.user_id)
    then none
    else lookup (cache_key elsewhere) 5 scopes)
invalidate_user-exact_example =
    invalidate_user-exact alice elsewhere 5 scopes alice-HasPlainIds elsewhere-HasPlainIds
      (λ e. ground (arith, e)) (λ e. ground (arith, e))

materialize-deny_example :
    materialize deny (some source) alice read_scope 1 2 scopes
    ≡ materialize deny (some source) alice full_scope 1 2 scopes
materialize-deny_example = materialize-deny (some source) alice read_scope full_scope 1 2 scopes

abbrev numbers : TtlCache (Option ℕ)
numbers = record { ttl = 5; entries = [] }

abbrev down : Result (Option ℕ) Str
down = err []

resolve_cached-repeats_example :
    (resolve_cached
      (b'k' ∷ [])
      4
      5
      down
      (resolve_cached {E = Str} (b'k' ∷ []) 1 2 (ok (some 9)) numbers).0).1
    ≡ (if ltb 4 (2 + numbers.ttl) then ok (some 9) else down)
unfolding lookup get_valid Dict.get
resolve_cached-repeats_example =
    resolve_cached-repeats (b'k' ∷ []) 1 2 (some 9) numbers refl 4 5 down

abbrev caches : DynamicPolicyCaches ℕ ℕ ℕ
caches = record { cors = numbers; rate_limit = numbers; tenant_profile = numbers }
