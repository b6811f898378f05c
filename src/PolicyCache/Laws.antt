-- ===== src/PolicyCache/Laws.antt =====
-- What the cache with a time to live answers after each of its operations.
use sdkwork_web_framework.Base.{
  ℕ, ◌+◌, ◌≤◌, not, Option, none, some, if◌then◌else◌, ltb, ◌≡◌, arith,
}
use sdkwork_web_framework.Base.Text.{Str, str_eq, starts_with}
use sdkwork_web_framework.Base.Text.Laws.{str_eq_iff}
use sdkwork_web_framework.Base.Dict.{get-insert, get-remove, get-retain-key}
use sdkwork_web_framework.PolicyCache.{TtlCache, get_valid, insert, invalidate_prefix}

-- The value that a reader finds at an instant.
unfoldable pub lookup {ℓ} : {T : Type ℓ} → Str → ℕ → TtlCache T → Option T
lookup key now cache = (get_valid key now cache).1

module _ {ℓ} {T : Type ℓ} where
  pub lookup-get_valid :
      (key j : Str) (now at : ℕ) (cache : TtlCache T)
      → now ≤ at
      → lookup j at (get_valid key now cache).0 ≡ lookup j at cache
  unfolding lookup get_valid
  lookup-get_valid key j now at cache later =
      ground (arith, get-remove key j cache.entries, str_eq_iff key j)

  pub lookup-insert :
      (key j : Str) (value : T) (now at : ℕ) (cache : TtlCache T)
      → lookup j at (insert key value now cache) ≡ (
          if str_eq key j
          then (if ltb at (now + cache.ttl) then some value else none)
          else lookup j at cache)
  unfolding lookup get_valid insert
  lookup-insert key j value now at cache = ground (
    arith,
    get-insert key j (record { value = value; expires_at = now + cache.ttl }) cache.entries,
  )

  pub lookup-invalidate_prefix :
      (prefix j : Str) (at : ℕ) (cache : TtlCache T)
      → lookup j at (invalidate_prefix prefix cache)
        ≡ (if starts_with prefix j then none else lookup j at cache)
  unfolding lookup get_valid invalidate_prefix
  lookup-invalidate_prefix prefix j at cache =
      ground (arith, get-retain-key (λ key. not (starts_with prefix key)) j cache.entries)
