-- ===== src/Stores/RateLimit/Tiers.antt =====
-- crates/sdkwork-web-core/src/rate_limit.rs: the window of each tier, and which window a request
-- is given. Of the state of a call only its tier is read, and of the global policy two numbers.
use sdkwork_web_framework.Base.{ℕ, Option, none, some}
use sdkwork_web_framework.Contract
use sdkwork_web_framework.Contract.{RateLimitTier}

pub record ResolvedRateLimitPolicy : Type 0 where
  pub max_requests : ℕ
  pub window_secs : ℕ

-- `SecurityPolicy::rate_limit`, as far as it is read
pub record RateLimitPolicy : Type 0 where
  pub max_requests_per_window : ℕ
  pub window_secs : ℕ

unfoldable pub limits_for_tier : RateLimitTier → ResolvedRateLimitPolicy
limits_for_tier Contract.auth_critical = record { max_requests = 10; window_secs = 60 }
limits_for_tier Contract.open_api_default = record { max_requests = 120; window_secs = 60 }
limits_for_tier Contract.upload = record { max_requests = 30; window_secs = 60 }
limits_for_tier Contract.search_tier = record { max_requests = 60; window_secs = 60 }
limits_for_tier Contract.bulk = record { max_requests = 20; window_secs = 60 }
limits_for_tier Contract.worker = record { max_requests = 100; window_secs = 60 }
limits_for_tier Contract.internal = record { max_requests = 500; window_secs = 60 }

-- `DefaultRateLimitPolicyResolver::resolve`
unfoldable pub resolve_rate_limit : Option RateLimitTier → RateLimitPolicy → ResolvedRateLimitPolicy
resolve_rate_limit (some tier) policy = limits_for_tier tier
resolve_rate_limit none policy = record {
  max_requests = policy.max_requests_per_window;
  window_secs = policy.window_secs;
}
