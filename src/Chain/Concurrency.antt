-- ===== src/Chain/Concurrency.antt =====
-- crates/sdkwork-web-chain/src/concurrency.rs: the bulkhead stage over the admission store of the
-- process. The context holds the leases of one request; the store is shared by all requests. The
-- store of the process only refuses with the kind of an exceeded limit, so the stage's way round a
-- store that is out of reach is modelled for an outcome of any kind, but never taken here.
pub mod Balance
pub mod Undone
use sdkwork_web_framework.Base.{
  ℕ, ◌+◌, Bool, true, false, Option, none, some, List, [], ◌∷◌, ◌++◌, reverse, if◌then◌else◌,
  unwrap_or, Result, ok, err, map,
}
use sdkwork_web_framework.Base.Text.{Str, lit, decimal}
use sdkwork_web_framework.Errors.{WebFrameworkError}
use sdkwork_web_framework.Errors.Kind
use sdkwork_web_framework.Errors.Kind.{WebFrameworkErrorKind}
use sdkwork_web_framework.Stores.Admission.{ActiveCounts, try_acquire, release}
use sdkwork_web_framework.Chain.Policy.{
  ConcurrencyScope, global, api_key, tenant, scope_name, ConcurrencyPolicy, limit_for,
}
use sdkwork_web_framework.Chain.{ChainVerdict, pass, reject, ChainStage, concurrency_exceeded}

-- An `i64`, by its sign.
pub data ℤ : Type 0 where
  pos negsuc : ℕ → ℤ

unfoldable pub decimal_signed : ℤ → Str
decimal_signed (pos n) = decimal n
decimal_signed (negsuc n) = b'-' ∷ decimal (n + 1)

pub record ChainScopes : Type 0 where
  pub tenant_id : Option ℤ
  pub organization_id : Option ℤ
  pub api_key_id : Option ℤ

unfoldable pub default_scopes : List ConcurrencyScope
default_scopes = global ∷ api_key ∷ []

unfoldable pub key_with : Str → Option ℤ → Option Str
unfolding decimal_signed
key_with prefix none = none
key_with prefix (some id) = some (prefix ++ decimal_signed id ++ lit ":concurrent")

unfoldable pub scope_key : ConcurrencyScope → ChainScopes → Option Str
unfolding key_with
scope_key global scopes = some (lit "global:concurrent")
scope_key api_key scopes = key_with (lit "api-key:") scopes.api_key_id
scope_key tenant scopes = key_with (lit "tenant:") scopes.tenant_id

-- `release_keys`, over the keys with the latest first
unfoldable pub release_keys : List Str → ActiveCounts → ActiveCounts
release_keys [] active = active
release_keys (key ∷ latest_first) active = release_keys latest_first (release key active)

unfoldable pub is_limit_error : WebFrameworkErrorKind → Bool
is_limit_error Kind.rate_limit_exceeded = true
is_limit_error _ = false

-- the loop of `before`; `acquired` has the latest key first
unfoldable pub acquire_scopes :
    ConcurrencyPolicy
    → ChainScopes
    → ℕ
    → List ConcurrencyScope
    → List Str
    → ActiveCounts
    → ActiveCounts × List Str × Result ChainVerdict WebFrameworkError
unfolding release_keys scope_key is_limit_error
acquire_scopes policy scopes retry_after_secs [] acquired active = (active, acquired, ok pass)
acquire_scopes policy scopes retry_after_secs (scope ∷ rest) acquired active =
    elim (limit_for scope policy) [
      | none ↦ acquire_scopes policy scopes retry_after_secs rest acquired active
      | some limit ↦ elim (scope_key scope scopes) [
        | none ↦ acquire_scopes policy scopes retry_after_secs rest acquired active
        | some key ↦
            let active' = (try_acquire key limit active).0 in
            elim (try_acquire key limit active).1 [
              | ok u ↦ acquire_scopes policy scopes retry_after_secs rest (key ∷ acquired) active'
              | err error ↦ elim (is_limit_error error.kind) [
                | true ↦ (
                  release_keys acquired active',
                  [],
                  ok (
                      reject (
                        concurrency_exceeded
                          (lit "concurrency limit exceeded for scope "
                            ++ scope_name scope
                            ++ lit ": "
                            ++ error.message)
                          (unwrap_or error.retry_after_seconds retry_after_secs))),
                )
                | false ↦ acquire_scopes policy scopes retry_after_secs rest acquired active'
              ]
            ]
      ]
    ]

-- The shared counts, and the leases in the context of the request, if the stage has put any there.
pub record StageState : Type 0 where
  pub active : ActiveCounts
  pub leases : Option (List Str)

-- `ConcurrencyStage`, for the policy and the scopes of one request
module _ (policy : Option ConcurrencyPolicy) (scopes : ChainScopes)
    (enforced : List ConcurrencyScope) (retry_after_secs : ℕ) where
  unfoldable pub concurrency_before :
      StageState → StageState × Result ChainVerdict WebFrameworkError
  unfolding acquire_scopes
  concurrency_before s = elim policy [
    | none ↦ (record s { leases = some [] }, ok pass)
    | some p ↦
        let (active', acquired, verdict) =
          acquire_scopes p scopes retry_after_secs enforced [] s.active in
        elim verdict [
          | err e ↦ (record s { active = active' }, err e)
          | ok v ↦ elim v [
            | pass ↦ (record { active = active'; leases = some acquired }, ok pass)
            | reject reason ↦ (record s { active = active' }, ok (reject reason))
          ]
        ]
  ]

  unfoldable pub concurrency_after : StageState → StageState × Result (Unit {0}) WebFrameworkError
  unfolding release_keys
  concurrency_after s = elim s.leases [
    | none ↦ (s, ok tt)
    | some keys ↦ (record { active = release_keys keys s.active; leases = none }, ok tt)
  ]

  unfoldable pub concurrency_stage : ChainStage StageState
  unfolding concurrency_before concurrency_after
  concurrency_stage = record {
    name = lit "concurrency";
    stage_order = 200;
    before = concurrency_before;
    after = concurrency_after;
    on_error = λ e s. concurrency_after s;
  }
