-- ===== src/AuthzScope/Materialize.antt =====
-- Where the scope that a request is given comes from.
use sdkwork_web_framework.Base.{
  ℕ, Option, none, some, ok, ◌>>=◌, ◌≡◌, refl, sym, ap, ◌∙◌, arith, Option-cases, Result-cases, inl,
  inr,
}
use sdkwork_web_framework.Base.Text.Laws.{str_eq_refl, Avoids}
use sdkwork_web_framework.Surface.{WebApiSurface}
use sdkwork_web_framework.Principal.{WebRequestPrincipal}
use sdkwork_web_framework.PolicyCache.{get_valid}
use sdkwork_web_framework.PolicyCache.Laws.{lookup}
use sdkwork_web_framework.AuthzScope.{
  AuthorizationScopeSubject, WebAuthorizationScope, AuthorizationScopeFallback, deny, ScopeCache,
  ScopeAnswer, cache_key, apply_fallback, resolve_with, materialize, for_principal, from_principal,
  apply_to, enrich, invalidate_tenant,
}
use sdkwork_web_framework.AuthzScope.Isolation.{invalidate_tenant-exact}

-- the answer, by what the cache holds
materialize-answer :
    (fallback : AuthorizationScopeFallback) (resolve : AuthorizationScopeSubject → ScopeAnswer)
    (s : AuthorizationScopeSubject) (c : WebAuthorizationScope) (now later : ℕ) (cache : ScopeCache)
    → (materialize fallback (some resolve) s c now later cache).1
      ≡ elim (lookup (cache_key s) now cache) [
        | some cached ↦ resolve_with fallback s c cached
        | none ↦ resolve s >>= λ answer. resolve_with fallback s c answer
      ]
unfolding materialize lookup
materialize-answer fallback resolve s c now later cache = ground arith

resolve_with-deny :
    (s : AuthorizationScopeSubject) (c c' : WebAuthorizationScope)
    (cached : Option WebAuthorizationScope)
    → resolve_with deny s c cached ≡ resolve_with deny s c' cached
unfolding resolve_with apply_fallback
resolve_with-deny s c c' none = refl
resolve_with-deny s c c' (some scope) = refl

-- A provider that denies by default never uses the scope that the credential carries: its answer
-- and its cache are the same for any two credential scopes, with or without a source.
pub materialize-deny :
    (source : Option (AuthorizationScopeSubject → ScopeAnswer)) (s : AuthorizationScopeSubject)
    (c c' : WebAuthorizationScope) (now later : ℕ) (cache : ScopeCache)
    → materialize deny source s c now later cache ≡ materialize deny source s c' now later cache
unfolding materialize resolve_with apply_fallback
materialize-deny none s c c' now later cache =
    elim (Option-cases (get_valid (cache_key s) now cache).1) [
      | inl miss ↦ rw (materialize, miss) refl
      | inr (cached, hit) ↦ rw (materialize, hit, resolve_with-deny s c c' cached) refl
    ]
materialize-deny (some resolve) s c c' now later cache =
    elim (Option-cases (get_valid (cache_key s) now cache).1) [
      | inl miss ↦ elim (Result-cases (resolve s)) [
        | inl (answer, found) ↦ rw (materialize, miss, found, resolve_with-deny s c c' answer) refl
        | inr (e, failed) ↦ rw (materialize, miss, failed) refl
      ]
      | inr (cached, hit) ↦ rw (materialize, hit, resolve_with-deny s c c' cached) refl
    ]

-- After an invalidation of a tenant whose identifier does not contain the delimiter `|`, the next
-- request of each of its subjects is given what the source answers then, or the fallback where the
-- source has no scope, whatever was cached.
pub materialize-invalidate_tenant :
    (fallback : AuthorizationScopeFallback) (resolve : AuthorizationScopeSubject → ScopeAnswer)
    (s : AuthorizationScopeSubject) (c : WebAuthorizationScope) (now later : ℕ) (cache : ScopeCache)
    → Avoids b'|' s.tenant_id
    → (materialize fallback (some resolve) s c now later (invalidate_tenant s.tenant_id cache)).1
      ≡ (resolve s >>= λ answer. resolve_with fallback s c answer)
materialize-invalidate_tenant fallback resolve s c now later cache h =
    materialize-answer fallback resolve s c now later (invalidate_tenant s.tenant_id cache)
    ∙ rw (invalidate_tenant-exact s.tenant_id s now cache h h, str_eq_refl s.tenant_id) refl

-- A principal that a provider enriches has the scopes that the provider resolves for its subject,
-- and keeps its identity: the subject and the authentication context are unchanged.
pub enrich-identity :
    (fallback : AuthorizationScopeFallback)
    (source : Option (AuthorizationScopeSubject → ScopeAnswer)) (surface : WebApiSurface)
    (p p' : WebRequestPrincipal) (now later : ℕ) (cache : ScopeCache)
    → (enrich fallback source surface p now later cache).1 ≡ ok p'
    → (scope : WebAuthorizationScope) × ((materialize fallback source
          (for_principal p surface)
          (from_principal p)
          now
          later
          cache).1
        ≡ ok scope)
      × (p'.scopes.data_scope ≡ scope.data_scope)
      × (p'.scopes.permission_scope ≡ scope.permission_scope)
      × (for_principal p' surface ≡ for_principal p surface)
      × (p'.auth ≡ p.auth)
unfolding enrich for_principal apply_to
enrich-identity fallback source surface p p' now later cache h =
    elim (Result-cases
      (materialize fallback source (for_principal p surface) (from_principal p) now later
        cache).1) [
          | inl (scope, found) ↦
              let same : apply_to scope p ≡ p' = cc (rw (enrich, found) at h) in
              (
                scope,
                found,
                ap (λ q. q.scopes.data_scope) (sym same),
                ap (λ q. q.scopes.permission_scope) (sym same),
                ap (λ q. for_principal q surface) (sym same),
                ap (λ q. q.auth) (sym same),
              )
          | inr (e, failed) ↦ cc (rw (enrich, failed) at h)
        ]
