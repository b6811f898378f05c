-- ===== src/Pipeline/Idempotency/Settlement.antt =====
-- What the settlement of a response means for a retry of the command.
use sdkwork_web_framework.Base.{
  ℕ, ◌-◌, ◌<◌, true, false, not, ◌&&◌, ◌||◌, some, length, ltb, ◌≡◌, refl, Bool-cases, inl, inr, ok,
  err,
}
use sdkwork_web_framework.Base.Text.{Str, lit}
use sdkwork_web_framework.Base.Text.Laws.{str_eq_refl}
use sdkwork_web_framework.Errors.{conflict, payload_too_large}
use sdkwork_web_framework.Pipeline.Idempotency.{
  HandlerResponse, is_event_stream_response, is_success, settle_response, idempotency_after,
}
use sdkwork_web_framework.Pipeline.State.{WebCallState}
use sdkwork_web_framework.Security.{SecurityPolicy}
use sdkwork_web_framework.Stores.Idempotency.{Entries, leader, begin}
use sdkwork_web_framework.Stores.Idempotency.Exclusion.{next_begin-excludes}
use sdkwork_web_framework.Stores.Idempotency.Protocol.{FitsStore, release-begin}

-- The call is the leader for the key and the fingerprint.
abbrev pub Leads : WebCallState → Str → Str → Type 0
Leads state key fingerprint =
    (state.idempotency_leader ≡ true)
    × (state.idempotency_key ≡ some key)
    × (state.idempotency_fingerprint ≡ some fingerprint)

pub idempotency_after-leader :
    (policy : SecurityPolicy) (state : WebCallState) (key fingerprint : Str) (now : ℕ)
    (response : HandlerResponse) (entries : Entries)
    → Leads state key fingerprint
    → idempotency_after policy state now response entries
      ≡ settle_response policy key fingerprint now response entries
unfolding idempotency_after
idempotency_after-leader policy state key fingerprint now response entries (leads, keyed, printed) =
    rw (idempotency_after, leads, keyed, printed) refl

-- A leader whose response is a stream, or fits the cache and is no success, gives its key back: the
-- next request under the key becomes the leader, whatever its fingerprint and whenever it comes.
pub idempotency_after-retries :
    (policy : SecurityPolicy) (state : WebCallState) (key fingerprint : Str) (ttl now created : ℕ)
    (entries s : Entries) (done : ℕ) (response : HandlerResponse)
    → begin key fingerprint ttl now created entries ≡ (s, ok leader)
    → Leads state key fingerprint
    → (is_event_stream_response response
        || (not (ltb policy.idempotency.max_cached_response_bytes (length response.body))
            && not (is_success response.status)))
      ≡ true
    → (fingerprint' : Str) (ttl' now' created' : ℕ)
    → (begin key fingerprint' ttl' now' created'
        (idempotency_after policy state done response s).0.0).1
      ≡ ok leader
unfolding settle_response
idempotency_after-retries policy state key fingerprint ttl now created entries s done response led
      leads fails fingerprint' ttl' now' created' =
    let again =
      release-begin key fingerprint ttl now created entries s led fingerprint' ttl' now' created' in
    elim (Bool-cases (is_event_stream_response response)) [
      | inl stream ↦
          rw (idempotency_after-leader policy state key fingerprint done response s leads)
            (rw (settle_response, stream) again)
      | inr plain ↦
          elim (Bool-cases
            (ltb policy.idempotency.max_cached_response_bytes (length response.body))) [
              | inl large ↦ cc (rw (plain, large) at fails)
              | inr fits ↦ elim (Bool-cases (is_success response.status)) [
                | inl success ↦ cc (rw (plain, fits, success) at fails)
                | inr failure ↦
                    rw (idempotency_after-leader policy state key fingerprint done response s leads)
                      (rw (settle_response, plain, fits, failure) again)
              ]
            ]
    ]

-- A leader, in a store within its limits, whose response is no stream and larger than the cache
-- admits, keeps its key, whatever the status is: the stage ends in an error, and the next request
-- on the store, where it is under the same key and fingerprint and comes before the reservation
-- expires, is told that the key is in progress.
pub large_response-blocks :
    (policy : SecurityPolicy) (state : WebCallState) (key fingerprint : Str) (ttl now created : ℕ)
    (entries s : Entries) (done : ℕ) (response : HandlerResponse)
    → begin key fingerprint ttl now created entries ≡ (s, ok leader)
    → FitsStore s
    → Leads state key fingerprint
    → is_event_stream_response response ≡ false
    → ltb policy.idempotency.max_cached_response_bytes (length response.body) ≡ true
    → (ttl' now' created' : ℕ) → now' - created < ttl'
    → ((idempotency_after policy state done response s).1
        ≡ err (payload_too_large (lit "idempotency response exceeds cache limit")))
      × ((begin key fingerprint ttl' now' created'
            (idempotency_after policy state done response s).0.0).1
          ≡ err (conflict (lit "idempotency key is already in progress")))
unfolding settle_response
large_response-blocks policy state key fingerprint ttl now created entries s done response led fits
      leads plain large ttl' now' created' soon =
    let settled = idempotency_after-leader policy state key fingerprint done response s leads in
    let excluded =
      next_begin-excludes key fingerprint ttl now created entries s led fits fingerprint ttl' now'
        created' soon in
    (
      rw settled (rw (settle_response, plain, large) refl),
      rw settled (rw (settle_response, plain, large) (rw (str_eq_refl fingerprint) at excluded)),
    )
