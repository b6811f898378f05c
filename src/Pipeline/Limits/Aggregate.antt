-- ===== src/Pipeline/Limits/Aggregate.antt =====
-- How the two charges of a rate limited call act on the buckets.
use sdkwork_web_framework.Base.{
  ℕ, true, false, none, some, is_some, ◌==◌, ltb, leb, is_ok, ◌≡◌, ◌≢◌, refl, sym, ap, ◌∙◌, arith,
  Bool-cases, Option-cases, inl, inr, ok, err, not, ◌&&◌,
}
use sdkwork_web_framework.Base.Text.{Str, lit, starts_with}
use sdkwork_web_framework.Base.Dict
use sdkwork_web_framework.Pipeline.Keys.{rate_limit_key_of}
use sdkwork_web_framework.Pipeline.Limits.{
  Buckets, Charged, limit_of, window_of, aggregate_key, aggregate_limit, charge_aggregate, charge,
  apply_rate_limit,
}
use sdkwork_web_framework.Pipeline.State.{
  WebCallState, credentials_present, rate_limit_globally_enabled,
}
use sdkwork_web_framework.Security.{SecurityPolicy}
use sdkwork_web_framework.Stores.RateLimit.{check_and_record, bucket_of, roll}
use sdkwork_web_framework.Stores.RateLimit.Tiers.{ResolvedRateLimitPolicy}
use sdkwork_web_framework.Stores.RateLimit.Window.{check_and_record-other}

count-bucket :
    (key : Str) (window now : ℕ) (a b : Buckets)
    → Dict.get key a ≡ Dict.get key b
    → roll now window (bucket_of key now a) ≡ roll now window (bucket_of key now b)
unfolding bucket_of
count-bucket key window now a b h = rw (bucket_of, h) refl

is_ok-check :
    (key : Str) (limit window now : ℕ) (a : Buckets)
    → is_ok (check_and_record key limit window now a).1
      ≡ not (leb limit (roll now window (bucket_of key now a)).count)
unfolding check_and_record
is_ok-check key limit window now a =
    elim (Bool-cases (leb limit (roll now window (bucket_of key now a)).count)) [
      | inl full ↦ rw (check_and_record, full) refl
      | inr room ↦ rw (check_and_record, room) refl
    ]

-- Whether a check passes depends on the bucket of its own key only.
answer-bucket :
    (key : Str) (limit window now : ℕ) (a b : Buckets)
    → Dict.get key a ≡ Dict.get key b
    → is_ok (check_and_record key limit window now a).1
      ≡ is_ok (check_and_record key limit window now b).1
answer-bucket key limit window now a b h =
    is_ok-check key limit window now a
    ∙ ap (λ bucket. not (leb limit bucket.count)) (count-bucket key window now a b h)
    ∙ sym (is_ok-check key limit window now b)

shared_head : (state : WebCallState) → starts_with (lit "p") (aggregate_key state) ≡ true
unfolding aggregate_key lit starts_with
shared_head state = refl

own_head : (state : WebCallState) → starts_with (lit "p") (rate_limit_key_of state) ≡ false
unfolding rate_limit_key_of lit starts_with
own_head state = elim (Option-cases state.principal) [
  | inr (principal, known) ↦ rw (rate_limit_key_of, known) refl
  | inl anonymous ↦ elim (Bool-cases (credentials_present state)) [
    | inl present ↦ rw (rate_limit_key_of, anonymous, present) refl
    | inr absent ↦ rw (rate_limit_key_of, anonymous, absent) refl
  ]
]

-- Keys that begin with another letter are other keys.
own-aggregate : (state : WebCallState) → rate_limit_key_of state ≢ aggregate_key state
own-aggregate state e =
    let clash : false ≡ true =
      sym (own_head state) ∙ ap (starts_with (lit "p")) e ∙ shared_head state in
    cc clash

test_zero : (n : ℕ) → n ≢ 0 → (n == 0) ≡ false
test_zero n positive = ground arith

test_positive : (n : ℕ) → n ≢ 0 → ltb 0 n ≡ true
test_positive n positive = ground arith

apply_rate_limit-charge :
    (policy : SecurityPolicy) (state : WebCallState) (now : ℕ) (buckets : Buckets)
    → rate_limit_globally_enabled policy state ≡ true
    → (limit_of policy state).max_requests ≢ 0
    → apply_rate_limit policy state now buckets
      ≡ charge policy state (limit_of policy state) now buckets
unfolding apply_rate_limit
apply_rate_limit-charge policy state now buckets on limited =
    rw (apply_rate_limit, on, test_zero (limit_of policy state).max_requests limited) refl

charge_aggregate-check :
    (policy : SecurityPolicy) (state : WebCallState) (resolved : ResolvedRateLimitPolicy)
    (now multiplier : ℕ) (buckets : Buckets)
    → state.principal ≡ none
    → credentials_present state ≡ true
    → policy.rate_limit.pre_auth_aggregate_multiplier ≡ some multiplier
    → multiplier ≢ 0
    → charge_aggregate policy state resolved now buckets
      ≡ check_and_record
          (aggregate_key state)
          (aggregate_limit resolved multiplier)
          (window_of resolved)
          now
          buckets
unfolding charge_aggregate
charge_aggregate-check policy state resolved now multiplier buckets anonymous present aggregate
      positive =
    rw
      (
        charge_aggregate,
        aggregate,
        present,
        test_positive multiplier positive,
        ap is_some anonymous,
      )
      refl

charge-verdict :
    (policy : SecurityPolicy) (state : WebCallState) (resolved : ResolvedRateLimitPolicy) (now : ℕ)
    (buckets : Buckets) (own : Charged)
    → check_and_record
        (rate_limit_key_of state)
        resolved.max_requests
        (window_of resolved)
        now
        buckets
      ≡ own
    → is_ok (charge policy state resolved now buckets).1
      ≡ (is_ok own.1 && is_ok (charge_aggregate policy state resolved now own.0).1)
unfolding charge
charge-verdict policy state resolved now buckets (after, err e) checked =
    rw (charge, ap (λ charged. charged.1) checked) refl
charge-verdict policy state resolved now buckets (after, ok u) checked =
    rw (charge, ap (λ charged. charged.1) checked, ap (λ charged. charged.0) checked) refl

-- Where rate limiting is on and the limit is not 0, a call with credentials and no principal,
-- under a positive aggregate multiplier, passes exactly if there is room both in its own bucket
-- and in the shared bucket of its path and tier, each as it was before the call.
pub apply_rate_limit_iff :
    (policy : SecurityPolicy) (state : WebCallState) (now multiplier : ℕ) (buckets : Buckets)
    → rate_limit_globally_enabled policy state ≡ true
    → (limit_of policy state).max_requests ≢ 0
    → state.principal ≡ none
    → credentials_present state ≡ true
    → policy.rate_limit.pre_auth_aggregate_multiplier ≡ some multiplier
    → multiplier ≢ 0
    → is_ok (apply_rate_limit policy state now buckets).1 ≡ (
        is_ok
          (check_and_record
            (rate_limit_key_of state)
            (limit_of policy state).max_requests
            (window_of (limit_of policy state))
            now
            buckets).1
        && is_ok
            (check_and_record
              (aggregate_key state)
              (aggregate_limit (limit_of policy state) multiplier)
              (window_of (limit_of policy state))
              now
              buckets).1)
apply_rate_limit_iff policy state now multiplier buckets on limited anonymous present aggregate
      positive =
    let resolved = limit_of policy state in
    let own =
      check_and_record (rate_limit_key_of state) resolved.max_requests (window_of resolved) now
        buckets in
    let same =
      answer-bucket (aggregate_key state) (aggregate_limit resolved multiplier) (window_of resolved)
        now own.0 buckets
        (check_and_record-other (rate_limit_key_of state) (aggregate_key state)
          resolved.max_requests (window_of resolved) now buckets (own-aggregate state)) in
    ap (λ charged. is_ok charged.1) (apply_rate_limit-charge policy state now buckets on limited)
    ∙ charge-verdict policy state resolved now buckets own refl
    ∙ ap (λ charged. is_ok own.1 && is_ok charged.1)
        (charge_aggregate-check policy state resolved now multiplier own.0 anonymous present
          aggregate positive)
    ∙ ap (λ passed. is_ok own.1 && passed) same
