-- ===== src/AuthzScope/Isolation.antt =====
-- Whose scopes share an entry of the cache, and whose scopes each invalidation drops.
use sdkwork_web_framework.Base.{
  ℕ, ◌&&◌, Option, none, some, ◌++◌, ◌∷◌, [], if◌then◌else◌, ◌≡◌, ◌≢◌, refl, sym, ap, ◌∙◌, ◌==◌,
  arith, Bool, true, false, Bool-cases, inl, inr,
}
use sdkwork_web_framework.Base.Text.{Str, str_eq, lit, starts_with}
use sdkwork_web_framework.Base.Text.Laws.{
  Avoids, str_eq_refl, str_eq_sound, starts_with-field, fields_injective,
}
use sdkwork_web_framework.Surface.{
  WebApiSurface, open_api, app_api, backend_api, internal_api, gateway_api, unknown, WebEnvironment,
  dev, test, prod,
}
use sdkwork_web_framework.Principal.{WebDeploymentMode, saas, private, local}
use sdkwork_web_framework.PolicyCache.Keys.{debug_surface}
use sdkwork_web_framework.PolicyCache.Laws.{lookup, lookup-invalidate_prefix}
use sdkwork_web_framework.AuthzScope.{
  AuthorizationScopeSubject, ScopeCache, cache_key, subject_prefix, or_dash, debug_environment,
  debug_deployment, invalidate_user, invalidate_tenant,
}

-- The identifiers do not contain the delimiter of the keys.
pub record HasPlainIds (s : AuthorizationScopeSubject) : Type 0 where
  pub tenant : Avoids b'|' s.tenant_id
  pub organization : Avoids b'|' (or_dash s.organization_id)
  pub user : Avoids b'|' s.user_id
  pub app : Avoids b'|' s.app_id
  pub session : Avoids b'|' (or_dash s.session_id)

-- No identifier is the text that stands for an absent one.
pub record HasNoDash (s : AuthorizationScopeSubject) : Type 0 where
  pub organization : s.organization_id ≢ some (b'-' ∷ [])
  pub session : s.session_id ≢ some (b'-' ∷ [])

or_dash_injective :
    (o p : Option Str) → o ≢ some (b'-' ∷ []) → p ≢ some (b'-' ∷ []) → or_dash o ≡ or_dash p → o ≡ p
unfolding or_dash
or_dash_injective none none ho hp e = refl
or_dash_injective none (some y) ho hp e = absurd (hp (ap some (sym e)))
or_dash_injective (some x) none ho hp e = absurd (ho (ap some e))
or_dash_injective (some x) (some y) ho hp e = ap some e

-- the surface, environment and mode that a printed name begins like
surface_of : Str → WebApiSurface
surface_of [] = unknown
surface_of (c ∷ s) =
    if c == b'O'
    then open_api
    else if c == b'A'
    then app_api
    else if c == b'B'
    then backend_api
    else if c == b'I'
    then internal_api
    else if c == b'G'
    then gateway_api
    else unknown

environment_of : Str → WebEnvironment
environment_of [] = dev
environment_of (c ∷ s) = if c == b'D' then dev else if c == b'T' then test else prod

deployment_of : Str → WebDeploymentMode
deployment_of [] = saas
deployment_of (c ∷ s) = if c == b'S' then saas else if c == b'P' then private else local

surface_of-debug_surface : (a : WebApiSurface) → surface_of (debug_surface a) ≡ a
unfolding surface_of debug_surface lit
surface_of-debug_surface open_api = refl
surface_of-debug_surface app_api = refl
surface_of-debug_surface backend_api = refl
surface_of-debug_surface internal_api = refl
surface_of-debug_surface gateway_api = refl
surface_of-debug_surface unknown = refl

environment_of-debug_environment : (e : WebEnvironment) → environment_of (debug_environment e) ≡ e
unfolding environment_of debug_environment lit
environment_of-debug_environment dev = refl
environment_of-debug_environment test = refl
environment_of-debug_environment prod = refl

deployment_of-debug_deployment : (m : WebDeploymentMode) → deployment_of (debug_deployment m) ≡ m
unfolding deployment_of debug_deployment lit
deployment_of-debug_deployment saas = refl
deployment_of-debug_deployment private = refl
deployment_of-debug_deployment local = refl

debug_environment-Avoids : (e : WebEnvironment) → Avoids b'|' (debug_environment e)
unfolding debug_environment lit
debug_environment-Avoids dev = (refl, (refl, (refl, tt)))
debug_environment-Avoids test = (refl, (refl, (refl, (refl, tt))))
debug_environment-Avoids prod = (refl, (refl, (refl, (refl, tt))))

debug_deployment-Avoids : (m : WebDeploymentMode) → Avoids b'|' (debug_deployment m)
unfolding debug_deployment lit
debug_deployment-Avoids saas = (refl, (refl, (refl, (refl, tt))))
debug_deployment-Avoids private = (refl, (refl, (refl, (refl, (refl, (refl, (refl, tt)))))))
debug_deployment-Avoids local = (refl, (refl, (refl, (refl, (refl, tt)))))

-- Two subjects are cached under one key only if they are the same subject in every field, where no
-- identifier contains the delimiter `|` and no organization or session identifier is the text `-`
-- that stands for an absent one.
pub cache_key_injective :
    (s t : AuthorizationScopeSubject)
    → HasPlainIds s
    → HasPlainIds t
    → HasNoDash s
    → HasNoDash t
    → cache_key s ≡ cache_key t
    → s ≡ t
unfolding cache_key
cache_key_injective s t ps pt ds dt e =
    let (tenant, e1) = fields_injective b'|' s.tenant_id t.tenant_id _ _ ps.tenant pt.tenant e in
    let (org, e2) =
      fields_injective b'|' (or_dash s.organization_id) (or_dash t.organization_id) _ _
        ps.organization pt.organization e1 in
    let (user, e3) = fields_injective b'|' s.user_id t.user_id _ _ ps.user pt.user e2 in
    let (app, e4) = fields_injective b'|' s.app_id t.app_id _ _ ps.app pt.app e3 in
    let (session, e5) =
      fields_injective b'|' (or_dash s.session_id) (or_dash t.session_id) _ _ ps.session pt.session
        e4 in
    let (env, e6) =
      fields_injective b'|' (debug_environment s.environment) (debug_environment t.environment) _ _
        (debug_environment-Avoids s.environment) (debug_environment-Avoids t.environment) e5 in
    let (mode, surface) =
      fields_injective b'|' (debug_deployment s.deployment_mode)
        (debug_deployment t.deployment_mode) _ _ (debug_deployment-Avoids s.deployment_mode)
        (debug_deployment-Avoids t.deployment_mode) e6 in
    λ i. record {
      tenant_id = tenant i;
      organization_id =
          or_dash_injective s.organization_id t.organization_id ds.organization dt.organization org
            i;
      user_id = user i;
      app_id = app i;
      session_id = or_dash_injective s.session_id t.session_id ds.session dt.session session i;
      environment =
          (sym (environment_of-debug_environment s.environment)
              ∙ ap environment_of env
              ∙ environment_of-debug_environment t.environment)
            i;
      deployment_mode =
          (sym (deployment_of-debug_deployment s.deployment_mode)
              ∙ ap deployment_of mode
              ∙ deployment_of-debug_deployment t.deployment_mode)
            i;
      api_surface =
          (sym (surface_of-debug_surface s.api_surface)
              ∙ ap surface_of surface
              ∙ surface_of-debug_surface t.api_surface)
            i;
    }

-- An invalidation of a tenant drops the entries of all subjects of the tenant and no others, where
-- the tenants do not contain the delimiter.
pub invalidate_tenant-exact :
    (tenant_id : Str) (t : AuthorizationScopeSubject) (at : ℕ) (cache : ScopeCache)
    → Avoids b'|' tenant_id
    → Avoids b'|' t.tenant_id
    → lookup (cache_key t) at (invalidate_tenant tenant_id cache)
      ≡ (if str_eq tenant_id t.tenant_id then none else lookup (cache_key t) at cache)
unfolding invalidate_tenant cache_key starts_with str_eq
invalidate_tenant-exact tenant_id t at cache h ht =
    lookup-invalidate_prefix (tenant_id ++ b'|' ∷ []) (cache_key t) at cache
    ∙ rw (cache_key, starts_with-field b'|' tenant_id t.tenant_id [] _ h ht)
        (unfold starts_with in ground arith)

-- the entries are those whose key begins like the subject's
invalidate_user-or_dash :
    (s t : AuthorizationScopeSubject) (at : ℕ) (cache : ScopeCache)
    → HasPlainIds s
    → HasPlainIds t
    → lookup (cache_key t) at (invalidate_user s cache) ≡ (
        if str_eq s.tenant_id t.tenant_id
          && (str_eq (or_dash s.organization_id) (or_dash t.organization_id)
              && str_eq s.user_id t.user_id)
        then none
        else lookup (cache_key t) at cache)
unfolding invalidate_user cache_key starts_with str_eq subject_prefix lookup
invalidate_user-or_dash s t at cache ps pt =
    lookup-invalidate_prefix (subject_prefix s) (cache_key t) at cache
    ∙ rw
        (
          cache_key,
          subject_prefix,
          starts_with-field b'|' s.tenant_id t.tenant_id _ _ ps.tenant pt.tenant,
          starts_with-field b'|' (or_dash s.organization_id) (or_dash t.organization_id) _ _
              ps.organization pt.organization,
          starts_with-field b'|' s.user_id t.user_id [] _ ps.user pt.user,
        )
        (unfold starts_with in ground arith)

-- The two are both absent, or are the same text.
unfoldable pub same_id : Option Str → Option Str → Bool
same_id none none = true
same_id (some x) (some y) = str_eq x y
same_id _ _ = false

str_eq-or_dash :
    (o p : Option Str)
    → o ≢ some (b'-' ∷ [])
    → p ≢ some (b'-' ∷ [])
    → str_eq (or_dash o) (or_dash p) ≡ same_id o p
unfolding or_dash same_id
str_eq-or_dash none none ho hp = str_eq_refl (b'-' ∷ [])
str_eq-or_dash none (some y) ho hp = elim (Bool-cases (str_eq (b'-' ∷ []) y)) [
  | inl same ↦ absurd (hp (ap some (sym (str_eq_sound (b'-' ∷ []) y same))))
  | inr other ↦ other
]
str_eq-or_dash (some x) none ho hp = elim (Bool-cases (str_eq x (b'-' ∷ []))) [
  | inl same ↦ absurd (ho (ap some (str_eq_sound x (b'-' ∷ []) same)))
  | inr other ↦ other
]
str_eq-or_dash (some x) (some y) ho hp = refl

-- An invalidation of a user drops the entries of all subjects with its tenant, its organization or
-- like it none, and its user, and no others; the entries of the same user in another organization
-- stay. The identifiers do not contain the delimiter, and no organization is the text `-` that
-- stands for an absent one.
pub invalidate_user-exact :
    (s t : AuthorizationScopeSubject) (at : ℕ) (cache : ScopeCache)
    → HasPlainIds s
    → HasPlainIds t
    → s.organization_id ≢ some (b'-' ∷ [])
    → t.organization_id ≢ some (b'-' ∷ [])
    → lookup (cache_key t) at (invalidate_user s cache) ≡ (
        if str_eq s.tenant_id t.tenant_id
          && (same_id s.organization_id t.organization_id && str_eq s.user_id t.user_id)
        then none
        else lookup (cache_key t) at cache)
invalidate_user-exact s t at cache ps pt ds dt =
    rw (← str_eq-or_dash s.organization_id t.organization_id ds dt)
      (invalidate_user-or_dash s t at cache ps pt)
