-- ===== src/Stores/RateLimit.antt =====
-- `MemoryRateLimitStore`: a fixed window for each key. Instants and durations are nanoseconds.
pub mod Window
pub mod Tiers
use sdkwork_web_framework.Base.{
  ℕ, ◌+◌, ◌-◌, ◌/◌, ◌^◌, max, Bool, true, false, Option, none, some, if◌then◌else◌, leb, is_some,
  unwrap_or, Result, ok, err,
}
use sdkwork_web_framework.Base.Text.{Str, lit}
use sdkwork_web_framework.Base.Dict
use sdkwork_web_framework.Base.Dict.{Dict}
use sdkwork_web_framework.Errors.{WebFrameworkError, rate_limit_exceeded}

pub record MemoryRateLimitBucket : Type 0 where
  pub count : ℕ
  pub window_start : ℕ

-- `Duration::as_secs`
unfoldable pub as_secs : ℕ → ℕ
as_secs duration = duration / 1_000_000_000

-- `entry(key).or_insert_with(…)`: the bucket of the key, a new one if there is none
unfoldable pub bucket_of : Str → ℕ → Dict MemoryRateLimitBucket → MemoryRateLimitBucket
bucket_of key now buckets = elim (Dict.get key buckets) [
  | none ↦ record { count = 0; window_start = now }
  | some bucket ↦ bucket
]

-- a window that has passed starts again; `duration_since` is 0 for a later instant
unfoldable pub roll : ℕ → ℕ → MemoryRateLimitBucket → MemoryRateLimitBucket
roll now window bucket =
    if leb window (now - bucket.window_start)
    then record { count = 0; window_start = now }
    else bucket

unfoldable pub check_and_record :
    Str
    → ℕ
    → ℕ
    → ℕ
    → Dict MemoryRateLimitBucket
    → Dict MemoryRateLimitBucket × Result (Unit {0}) WebFrameworkError
unfolding bucket_of roll
check_and_record key max_requests window now buckets =
    let bucket = roll now window (bucket_of key now buckets) in
    if leb max_requests bucket.count
    then (
      Dict.insert key bucket buckets,
      err (rate_limit_exceeded (lit "rate limit exceeded") (max (as_secs window) 1)),
    )
    else (Dict.insert key (record bucket { count = bucket.count + 1 }) buckets, ok tt)
