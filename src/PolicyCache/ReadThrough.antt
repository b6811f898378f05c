-- ===== src/PolicyCache/ReadThrough.antt =====
-- Reading through the policy caches: how long an answer is repeated, and whose answers an
-- invalidation drops.
use sdkwork_web_framework.Base.{
  ℕ, ◌+◌, ◌&&◌, Option, none, some, ◌++◌, ◌∷◌, [], if◌then◌else◌, ltb, ◌≡◌, refl, ◌∙◌, arith,
  Result, ok,
}
use sdkwork_web_framework.Base.Text.{Str, lit, str_eq, starts_with}
use sdkwork_web_framework.Base.Text.Laws.{str_eq_refl, Avoids, starts_with-field}
use sdkwork_web_framework.Surface.{WebEnvironment, dev, test, prod}
use sdkwork_web_framework.PolicyCache.{
  TtlCache, get_valid, insert, DynamicPolicyCaches, invalidate_tenant_environment,
  tenant_environment_prefix, resolve_cached,
}
use sdkwork_web_framework.PolicyCache.Keys.{
  CorsPolicyContext, RateLimitPolicyContext, TenantRuntimeProfileContext, tenant_scope,
  environment_label, cors_key, rate_limit_key, tenant_profile_key,
}
use sdkwork_web_framework.PolicyCache.Laws.{lookup, lookup-insert, lookup-invalidate_prefix}

-- the answer, by what the cache holds
resolve_cached-answer :
    {T E : Type 0} (key : Str) (now later : ℕ) (answer : Result (Option T) E)
    (cache : TtlCache (Option T))
    → (resolve_cached key now later answer cache).1
      ≡ elim (lookup key now cache) [ some v ↦ ok v | none ↦ answer ]
unfolding resolve_cached lookup
resolve_cached-answer key now later answer cache = ground arith

get_valid-ttl :
    {T : Type 0} (key : Str) (now : ℕ) (cache : TtlCache T)
    → (get_valid key now cache).0.ttl ≡ cache.ttl
unfolding get_valid
get_valid-ttl key now cache = ground arith

-- a miss that the source answers is filled
resolve_cached-filled :
    (E : Type 0) {T : Type 0} (key : Str) (now later : ℕ) (resolved : Option T)
    (cache : TtlCache (Option T))
    → lookup key now cache ≡ none
    → (resolve_cached {E = E} key now later (ok resolved) cache).0
      ≡ insert key resolved later (get_valid key now cache).0
unfolding resolve_cached lookup
resolve_cached-filled E key now later resolved cache miss = rw (resolve_cached, miss) refl

-- After a miss is filled with the source's answer, that answer is repeated until the time to live
-- has passed since it was stored, whatever the source answers meanwhile, and from then on the
-- source is asked again.
pub resolve_cached-repeats :
    {T E : Type 0} (key : Str) (now later : ℕ) (resolved : Option T) (cache : TtlCache (Option T))
    → lookup key now cache ≡ none
    → (at after : ℕ) (answer : Result (Option T) E)
    → (resolve_cached key at after answer
        (resolve_cached {E = E} key now later (ok resolved) cache).0).1
      ≡ (if ltb at (later + cache.ttl) then ok resolved else answer)
resolve_cached-repeats {E} key now later resolved cache miss at after answer =
    rw
      (
        resolve_cached-answer key at after answer
            (resolve_cached {E = E} key now later (ok resolved) cache).0,
        resolve_cached-filled E key now later resolved cache miss,
        lookup-insert key key resolved later at (get_valid key now cache).0,
        str_eq_refl key,
        get_valid-ttl key now cache,
      )
      (ground arith)

environment_label-Avoids : (e : WebEnvironment) → Avoids b'|' (environment_label e)
unfolding environment_label lit
environment_label-Avoids dev = (refl, (refl, (refl, tt)))
environment_label-Avoids test = (refl, (refl, (refl, (refl, tt))))
environment_label-Avoids prod = (refl, (refl, (refl, (refl, tt))))

-- whose keys the prefix of an invalidation meets
starts_with-tenant_environment :
    (tenant environment scope rest : Str) (e : WebEnvironment)
    → Avoids b'|' tenant
    → Avoids b'|' environment
    → Avoids b'|' scope
    → starts_with
        (tenant_environment_prefix tenant environment)
        (scope ++ b'|' ∷ (environment_label e ++ b'|' ∷ rest))
      ≡ (str_eq tenant scope && str_eq environment (environment_label e))
unfolding tenant_environment_prefix starts_with
starts_with-tenant_environment tenant environment scope rest e ht he hs =
    rw
      (
        starts_with-field b'|' tenant scope (environment ++ b'|' ∷ [])
            (environment_label e ++ b'|' ∷ rest) ht hs,
        starts_with-field b'|' environment (environment_label e) [] rest he
            (environment_label-Avoids e),
      )
      (ground arith)

-- An invalidation for a tenant and an environment drops, from each of the three caches, every
-- answer whose context has that tenant scope and that environment, and leaves the answers of all
-- other contexts, where neither the tenants nor the environment contain the delimiter `|`.
pub invalidate_tenant_environment-exact :
    {Cors RateLimit Profile : Type 0} (tenant environment : Str)
    (caches : DynamicPolicyCaches Cors RateLimit Profile)
    → Avoids b'|' tenant
    → Avoids b'|' environment
    → (at : ℕ) (c : CorsPolicyContext) (r : RateLimitPolicyContext)
      (p : TenantRuntimeProfileContext)
    → Avoids b'|' (tenant_scope c.tenant_id)
    → Avoids b'|' (tenant_scope r.tenant_id)
    → Avoids b'|' (tenant_scope p.tenant_id)
    → (lookup (cors_key c) at (invalidate_tenant_environment tenant environment caches).cors ≡ (
        if str_eq tenant (tenant_scope c.tenant_id)
          && str_eq environment (environment_label c.environment)
        then none
        else lookup (cors_key c) at caches.cors))
      × (lookup
            (rate_limit_key r)
            at
            (invalidate_tenant_environment tenant environment caches).rate_limit
          ≡ (if str_eq tenant (tenant_scope r.tenant_id)
                && str_eq environment (environment_label r.environment)
              then none
              else lookup (rate_limit_key r) at caches.rate_limit))
      × (lookup
            (tenant_profile_key p)
            at
            (invalidate_tenant_environment tenant environment caches).tenant_profile
          ≡ (if str_eq tenant (tenant_scope p.tenant_id)
                && str_eq environment (environment_label p.environment)
              then none
              else lookup (tenant_profile_key p) at caches.tenant_profile))
unfolding invalidate_tenant_environment cors_key rate_limit_key tenant_profile_key
invalidate_tenant_environment-exact tenant environment caches ht he at c r p hc hr hp =
    let prefix = tenant_environment_prefix tenant environment in
    (
      lookup-invalidate_prefix prefix (cors_key c) at caches.cors
          ∙ rw
              (
                cors_key,
                starts_with-tenant_environment tenant environment (tenant_scope c.tenant_id) _
                    c.environment ht he hc,
              )
              refl,
      lookup-invalidate_prefix prefix (rate_limit_key r) at caches.rate_limit
          ∙ rw
              (
                rate_limit_key,
                starts_with-tenant_environment tenant environment (tenant_scope r.tenant_id) _
                    r.environment ht he hr,
              )
              refl,
      lookup-invalidate_prefix prefix (tenant_profile_key p) at caches.tenant_profile
          ∙ rw
              (
                tenant_profile_key,
                starts_with-tenant_environment tenant environment (tenant_scope p.tenant_id) _
                    p.environment ht he hp,
              )
              refl,
    )
