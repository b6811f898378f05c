-- ===== src/PolicyCache.antt =====
-- crates/sdkwork-web-core/src/policy_cache.rs: the cache with a time to live, the policy caches
-- and the sources that read through them. Instants and durations are nanoseconds; the lock makes
-- each operation one step, which reads the clock once. What a source answers comes from outside.
pub mod Keys
pub mod Laws
pub mod ReadThrough
use sdkwork_web_framework.Base.{
  ℕ, ◌+◌, Bool, true, false, not, Option, none, some, List, ◌++◌, ◌∷◌, [], if◌then◌else◌, ltb,
  Result, ok, err,
}
use sdkwork_web_framework.Base.Text.{Str, lit, starts_with}
use sdkwork_web_framework.Base.Dict
use sdkwork_web_framework.Base.Dict.{Dict}

pub record CacheEntry {ℓ} (T : Type ℓ) : Type ℓ where
  pub value : T
  pub expires_at : ℕ

pub record TtlCache {ℓ} (T : Type ℓ) : Type ℓ where
  pub ttl : ℕ
  pub entries : Dict (CacheEntry T)

unfoldable pub new_cache {ℓ} : {T : Type ℓ} → ℕ → TtlCache T
new_cache ttl = record { ttl = ttl; entries = [] }

-- `get_valid` at the instant `now`: a stale entry is dropped.
unfoldable pub get_valid {ℓ} : {T : Type ℓ} → Str → ℕ → TtlCache T → TtlCache T × Option T
get_valid key now cache = elim (Dict.get key cache.entries) [
  | none ↦ (record cache { entries = Dict.remove key cache.entries }, none)
  | some entry ↦
      if ltb now entry.expires_at
      then (cache, some entry.value)
      else (record cache { entries = Dict.remove key cache.entries }, none)
]

unfoldable pub insert {ℓ} : {T : Type ℓ} → Str → T → ℕ → TtlCache T → TtlCache T
insert key value now cache = record cache {
  entries = Dict.insert key (record { value = value; expires_at = now + cache.ttl }) cache.entries;
}

unfoldable pub invalidate_prefix {ℓ} : {T : Type ℓ} → Str → TtlCache T → TtlCache T
invalidate_prefix prefix cache = record cache {
  entries = Dict.retain (λ key entry. not (starts_with prefix key)) cache.entries;
}

-- The three caches, whose values are what the sources answer.
pub record DynamicPolicyCaches (Cors RateLimit Profile : Type 0) : Type 0 where
  pub cors : TtlCache (Option Cors)
  pub rate_limit : TtlCache (Option RateLimit)
  pub tenant_profile : TtlCache (Option Profile)

unfoldable pub tenant_environment_prefix : Str → Str → Str
tenant_environment_prefix tenant_id environment = tenant_id ++ b'|' ∷ (environment ++ b'|' ∷ [])

unfoldable pub invalidate_tenant_environment :
    {Cors RateLimit Profile : Type 0}
    → Str
    → Str
    → DynamicPolicyCaches Cors RateLimit Profile
    → DynamicPolicyCaches Cors RateLimit Profile
unfolding tenant_environment_prefix
invalidate_tenant_environment tenant_id environment caches =
    let prefix = tenant_environment_prefix tenant_id environment in
    record {
      cors = invalidate_prefix prefix caches.cors;
      rate_limit = invalidate_prefix prefix caches.rate_limit;
      tenant_profile = invalidate_prefix prefix caches.tenant_profile;
    }

-- `resolve` of the three caching sources, for the key that each one forms: the clock is read at
-- `now` and, once the inner source has answered, at `later`.
unfoldable pub resolve_cached :
    {T E : Type 0}
    → Str
    → ℕ
    → ℕ
    → Result (Option T) E
    → TtlCache (Option T)
    → TtlCache (Option T) × Result (Option T) E
resolve_cached key now later answer cache =
    let (cache', hit) = get_valid key now cache in
    elim hit [
      | some cached ↦ (cache', ok cached)
      | none ↦ elim answer [
        | err e ↦ (cache', err e)
        | ok resolved ↦ (insert key resolved later cache', ok resolved)
      ]
    ]
