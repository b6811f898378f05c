-- ===== src/Pipeline/Idempotency/Replay.antt =====
-- What the stage answers to a command that is repeated.
use sdkwork_web_framework.Base.{
  ℕ, Bool, true, false, not, ◌&&◌, ◌||◌, some, length, ltb, or_else, ◌≡◌, refl, ap, arith, ok,
}
use sdkwork_web_framework.Base.Text.{Str}
use sdkwork_web_framework.Base.Text.Laws.{str_eq_refl}
use sdkwork_web_framework.Base.Text.{lit}
use sdkwork_web_framework.Base.Dict
use sdkwork_web_framework.Http.{HeaderMap, header_value}
use sdkwork_web_framework.Pipeline.Idempotency.{
  HandlerResponse, is_event_stream_response, is_success, retention_of, settle_response,
  idempotency_after, idempotency_before, reserve, record_outcome, void, is_idempotent_command,
  validate_idempotency_key, resolve_idempotency_fingerprint,
}
use sdkwork_web_framework.Pipeline.Idempotency.Settlement.{Leads, idempotency_after-leader}
use sdkwork_web_framework.Pipeline.Keys.{scoped_idempotency_store_key}
use sdkwork_web_framework.Pipeline.State.{WebCallState, credentials_present}
use sdkwork_web_framework.Security.{SecurityPolicy}
use sdkwork_web_framework.Stores.Idempotency.{
  Entries, IdempotencyResponseRecord, MemoryIdempotencyEntry, replay, begin, complete, is_fresh,
}
use sdkwork_web_framework.Stores.Idempotency.Protocol.{complete-begin}

-- A command that the stage takes up: the guards let it through, it carries this key, and it has this
-- fingerprint.
pub record IsCommand (policy : SecurityPolicy) (state : WebCallState) (headers : HeaderMap)
    (client_key fingerprint : Str) : Type 0 where
  pub required :
      (policy.idempotency.require_for_retryable_commands || state.manifest_idempotent) ≡ true
  pub retryable : is_idempotent_command state.method ≡ true
  pub no_preflight : state.cors_preflight ≡ false
  pub credited : (state.public_path || credentials_present state) ≡ true
  pub carries :
      or_else state.idempotency_key (header_value headers (lit "Idempotency-Key")) ≡ some client_key
  pub short : validate_idempotency_key client_key ≡ ok tt
  pub printed :
      resolve_idempotency_fingerprint state.method state.path state.operation_id headers
        policy.idempotency.require_body_hash_for_payload
      ≡ ok fingerprint

credited_test : (a b : Bool) → (a || b) ≡ true → (not a && not b) ≡ false
credited_test a b h = ground (arith, h)

guard_test : (a b p : Bool) → a ≡ true → b ≡ true → p ≡ false → not (a && b && not p) ≡ false
guard_test a b p ha hb hp = ground (arith, ha, hb, hp)

idempotency_before-IsCommand :
    (policy : SecurityPolicy) (state : WebCallState) (headers : HeaderMap)
    (client_key fingerprint : Str) (now created : ℕ) (entries : Entries)
    → IsCommand policy state headers client_key fingerprint
    → idempotency_before policy state headers now created entries ≡ (
        let store_key = scoped_idempotency_store_key state client_key in
        let begun = begin store_key fingerprint (retention_of policy) now created entries in
        ((begun.0, record_outcome state store_key fingerprint begun.1), void begun.1))
unfolding idempotency_before reserve
idempotency_before-IsCommand policy state headers client_key fingerprint now created entries c =
    rw
      (
        idempotency_before,
        guard_test (policy.idempotency.require_for_retryable_commands || state.manifest_idempotent)
            (is_idempotent_command state.method) state.cors_preflight c.required c.retryable
            c.no_preflight,
        credited_test state.public_path (credentials_present state) c.credited,
        c.carries,
        c.short,
        reserve,
        c.printed,
      )
      refl

abbrev pub record_of : HandlerResponse → IdempotencyResponseRecord
record_of response = record {
  status_code = response.status;
  body = response.body;
  content_type = response.content_type;
}

idempotency_after-completes :
    (policy : SecurityPolicy) (state : WebCallState) (key fingerprint : Str) (done : ℕ)
    (response : HandlerResponse) (entries s : Entries)
    → Leads state key fingerprint
    → is_event_stream_response response ≡ false
    → ltb policy.idempotency.max_cached_response_bytes (length response.body) ≡ false
    → is_success response.status ≡ true
    → complete key fingerprint (record_of response) (retention_of policy) done entries ≡ (s, ok tt)
    → (idempotency_after policy state done response entries).0.0 ≡ s
unfolding settle_response
idempotency_after-completes policy state key fingerprint done response entries s leads plain fits
      success stored =
    rw (idempotency_after-leader policy state key fingerprint done response entries leads)
      (rw (settle_response, plain, fits, success) (ap (λ settled. settled.0) stored))

-- Once a leader's success is in the store, a command with the same key and fingerprint, in a scope
-- with the same store key, passes the stage with exactly that response to replay and without the
-- lead, as long as the entry is there and fresh.
pub idempotency_stage-replays :
    (policy : SecurityPolicy) (state again : WebCallState) (headers : HeaderMap)
    (key client_key fingerprint : Str) (done now created : ℕ) (response : HandlerResponse)
    (entries s : Entries) (e : MemoryIdempotencyEntry)
    → Leads state key fingerprint
    → is_event_stream_response response ≡ false
    → ltb policy.idempotency.max_cached_response_bytes (length response.body) ≡ false
    → is_success response.status ≡ true
    → complete key fingerprint (record_of response) (retention_of policy) done entries ≡ (s, ok tt)
    → Dict.get key s ≡ some e
    → is_fresh now (retention_of policy) e ≡ true
    → IsCommand policy again headers client_key fingerprint
    → scoped_idempotency_store_key again client_key ≡ key
    → (let settled = (idempotency_after policy state done response entries).0.0 in
        ((idempotency_before policy again headers now created settled).1 ≡ ok tt)
        × ((idempotency_before policy again headers now created settled).0.1
            ≡ record again { idempotency_replay = some (record_of response) }))
unfolding record_outcome void
idempotency_stage-replays policy state again headers key client_key fingerprint done now created
      response entries s e leads plain fits success stored found fresh command scoped =
    let settled =
      idempotency_after-completes policy state key fingerprint done response entries s leads plain
        fits success stored in
    let begun =
      complete-begin key fingerprint (record_of response) (retention_of policy) done entries s e
        stored found fingerprint (retention_of policy) now created fresh in
    let replayed : (begin key fingerprint (retention_of policy) now created s).1
        ≡ ok (replay (record_of response)) =
      rw (str_eq_refl fingerprint) at begun in
    rw
      (
        settled,
        idempotency_before-IsCommand policy again headers client_key fingerprint now created s
            command,
        scoped,
        replayed,
      )
      (refl, refl)
