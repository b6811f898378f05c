-- ===== src/Pipeline/Limits.antt =====
-- crates/sdkwork-web-core/src/interceptors.rs: the stages of rate limiting and of idempotency, over
-- the stores of the process (Stores). Seconds become nanoseconds; emitters of security events
-- succeed, and an overlay of a dynamic source stands in the state already.
pub mod Aggregate
use sdkwork_web_framework.Base.{
  ℕ, ◌+◌, ◌*◌, ◌-◌, ◌^◌, max, min, Bool, true, false, not, ◌&&◌, ◌||◌, ◌==◌, ltb, leb, Option, none,
  some, List, [], ◌∷◌, ◌++◌, any, is_some, if◌then◌else◌, unwrap_or, or_else, length, Result, ok,
  err,
}
use sdkwork_web_framework.Base.Text.{Str, lit, str_eq}
use sdkwork_web_framework.Base.Dict.{Dict}
use sdkwork_web_framework.Errors.{WebFrameworkError, bad_request, with_reason}
use sdkwork_web_framework.Hashing.{hash_key_material}
use sdkwork_web_framework.Pipeline.Keys.{
  rate_limit_key_of, tier_suffix, scoped_idempotency_store_key,
}
use sdkwork_web_framework.Pipeline.State.{
  WebCallState, credentials_present, rate_limit_globally_enabled,
}
use sdkwork_web_framework.Security.{SecurityPolicy, RateLimitPolicy, IdempotencyPolicy}
use sdkwork_web_framework.Stores.RateLimit.{MemoryRateLimitBucket, check_and_record}
use sdkwork_web_framework.Stores.RateLimit.Tiers
use sdkwork_web_framework.Stores.RateLimit.Tiers.{ResolvedRateLimitPolicy, resolve_rate_limit}

abbrev pub u32_max : ℕ
u32_max = 2 ^ 32 - 1

abbrev pub Buckets : Type 0
Buckets = Dict MemoryRateLimitBucket

abbrev pub Charged : Type 0
Charged = Buckets × Result (Unit {0}) WebFrameworkError

-- `Duration::from_secs(window_secs.max(1))`
unfoldable pub window_of : ResolvedRateLimitPolicy → ℕ
window_of resolved = max resolved.window_secs 1 * 1_000_000_000

-- the limit of the call: the overlay, or what `DefaultRateLimitPolicyResolver` resolves
unfoldable pub limit_of : SecurityPolicy → WebCallState → ResolvedRateLimitPolicy
limit_of policy state = unwrap_or state.resolved_rate_limit (
    resolve_rate_limit state.rate_limit_tier (record {
      max_requests_per_window = policy.rate_limit.max_requests_per_window;
      window_secs = policy.rate_limit.window_secs;
    }))

unfoldable pub aggregate_key : WebCallState → Str
aggregate_key state =
    lit "preauth:path:" ++ hash_key_material state.path ++ tier_suffix state.rate_limit_tier

-- `saturating_mul` on `u32`, at least 1
unfoldable pub aggregate_limit : ResolvedRateLimitPolicy → ℕ → ℕ
aggregate_limit resolved multiplier = max (min (resolved.max_requests * multiplier) u32_max) 1

-- the shared bucket of the calls that carry credentials and have no principal yet
unfoldable pub charge_aggregate :
    SecurityPolicy → WebCallState → ResolvedRateLimitPolicy → ℕ → Buckets → Charged
unfolding aggregate_key aggregate_limit window_of
charge_aggregate policy state resolved now buckets =
    elim policy.rate_limit.pre_auth_aggregate_multiplier [
      | none ↦ (buckets, ok tt)
      | some multiplier ↦
          if not (is_some state.principal) && credentials_present state && ltb 0 multiplier
          then check_and_record (aggregate_key state) (aggregate_limit resolved multiplier)
              (window_of resolved) now buckets
          else (buckets, ok tt)
    ]

-- both charges, for a limit that is not 0
unfoldable pub charge :
    SecurityPolicy → WebCallState → ResolvedRateLimitPolicy → ℕ → Buckets → Charged
unfolding charge_aggregate window_of
charge policy state resolved now buckets =
    let own =
      check_and_record (rate_limit_key_of state) resolved.max_requests (window_of resolved) now
        buckets in
    elim own.1 [
      | err error ↦ (own.0, err error)
      | ok u ↦ charge_aggregate policy state resolved now own.0
    ]

-- `apply_rate_limit` at the instant `now`
unfoldable pub apply_rate_limit : SecurityPolicy → WebCallState → ℕ → Buckets → Charged
unfolding charge limit_of
apply_rate_limit policy state now buckets =
    if not (rate_limit_globally_enabled policy state)
    then (buckets, ok tt)
    else let resolved = limit_of policy state in
      if resolved.max_requests == 0
      then (buckets, ok tt)
      else charge policy state resolved now buckets

unfoldable pub is_health_or_metrics : Str → Bool
is_health_or_metrics path =
    any (str_eq path)
      (lit "/healthz" ∷ lit "/readyz" ∷ lit "/livez" ∷ lit "/metrics" ∷ lit "/favicon.ico" ∷ [])

-- the stage before authentication
unfoldable pub rate_limit_stage : SecurityPolicy → WebCallState → ℕ → Buckets → Charged
unfolding apply_rate_limit is_health_or_metrics
rate_limit_stage policy state now buckets =
    if not (is_health_or_metrics state.path)
      && not state.cors_preflight
      && rate_limit_globally_enabled policy state
      && policy.rate_limit.pre_auth_rate_limit
    then apply_rate_limit policy state now buckets
    else (buckets, ok tt)
