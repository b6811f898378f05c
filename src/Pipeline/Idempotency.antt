-- ===== src/Pipeline/Idempotency.antt =====
-- crates/sdkwork-web-core/src/interceptors.rs and idempotency.rs: the stage of idempotency, before and
-- after the handler, over the store of the process (Stores.Idempotency), and the fingerprint of a
-- request. Of a response the stage reads the status, the body and the type of the content, which is
-- nothing where it is absent or no visible text. Seconds become nanoseconds.
pub mod Settlement
pub mod Replay
use sdkwork_web_framework.Base.{
  ℕ, ◌*◌, max, Bool, true, false, not, ◌&&◌, ◌||◌, Option, none, some, List, [], ◌∷◌, ◌++◌, any,
  is_some, if◌then◌else◌, unwrap_or, or_else, length, ltb, leb, Result, ok, err,
}
use sdkwork_web_framework.Base.Text.{Str, lit, str_eq, starts_with, to_ascii_lowercase}
use sdkwork_web_framework.Base.Text.Ops.{eq_ignore_ascii_case}
use sdkwork_web_framework.Errors.{WebFrameworkError, bad_request, payload_too_large, with_reason}
use sdkwork_web_framework.Hashing.{hash_key_material, utf8}
use sdkwork_web_framework.Http.{HeaderMap, header_text, header_value}
use sdkwork_web_framework.Pipeline.Keys.{scoped_idempotency_store_key}
use sdkwork_web_framework.Pipeline.State.{WebCallState, credentials_present}
use sdkwork_web_framework.Security.{SecurityPolicy, IdempotencyPolicy}
use sdkwork_web_framework.Security.Requests.{content_length}
use sdkwork_web_framework.Stores.Idempotency.{
  Entries, IdempotencyResponseRecord, IdempotencyBeginOutcome, leader, replay, begin, complete,
  release,
}

unfoldable pub idempotency_fingerprint : Str → Str → Option Str → Str
idempotency_fingerprint method path operation_id =
    hash_key_material (method ++ lit ":" ++ path ++ lit ":op=" ++ unwrap_or operation_id [])

unfoldable pub has_chunked_body : HeaderMap → Bool
has_chunked_body headers = elim (header_text headers (lit "transfer-encoding")) [
  | none ↦ false
  | some value ↦ eq_ignore_ascii_case value (lit "chunked")
]

-- the headers that carry the hash of a body
unfoldable pub explicit_fingerprint : HeaderMap → Option Str
explicit_fingerprint headers =
    or_else (header_value headers (lit "X-Idempotency-Fingerprint"))
      (header_value headers (lit "X-Content-SHA256"))

unfoldable pub resolve_idempotency_fingerprint :
    Str → Str → Option Str → HeaderMap → Bool → Result Str WebFrameworkError
unfolding idempotency_fingerprint has_chunked_body explicit_fingerprint
resolve_idempotency_fingerprint method path operation_id headers require_body_hash =
    elim (explicit_fingerprint headers) [
      | some explicit ↦
          ok (hash_key_material (method ++ lit ":" ++ path ++ lit ":body:" ++ explicit))
      | none ↦
          if require_body_hash
            && (ltb 0 (unwrap_or (content_length headers) 0) || has_chunked_body headers)
          then err (
              bad_request (
                lit
                  "requests with a body must include X-Content-SHA256 or X-Idempotency-Fingerprint for idempotent commands"))
          else ok (idempotency_fingerprint method path operation_id)
    ]

unfoldable pub is_idempotent_command : Str → Bool
is_idempotent_command method =
    any (str_eq method) (lit "POST" ∷ lit "PUT" ∷ lit "PATCH" ∷ lit "DELETE" ∷ [])

-- `MAX_IDEMPOTENCY_KEY_BYTES` is 128
unfoldable pub validate_idempotency_key : Str → Result (Unit {0}) WebFrameworkError
validate_idempotency_key value =
    if ltb 128 (length (utf8 value))
    then err (
        with_reason (bad_request (lit "Idempotency-Key header must not exceed 128 bytes"))
          (lit "invalid-idempotency-key"))
    else ok tt

unfoldable pub retention_of : SecurityPolicy → ℕ
retention_of policy = max policy.idempotency.retention_secs 1 * 1_000_000_000

abbrev pub Reserved : Type 0
Reserved = (Entries × WebCallState) × Result (Unit {0}) WebFrameworkError

-- what the answer of the store does to the state
unfoldable pub record_outcome :
    WebCallState → Str → Str → Result IdempotencyBeginOutcome WebFrameworkError → WebCallState
record_outcome state store_key fingerprint (err error) = state
record_outcome state store_key fingerprint (ok leader) = record state {
  idempotency_key = some store_key;
  idempotency_fingerprint = some fingerprint;
  idempotency_leader = true;
}
record_outcome state store_key fingerprint (ok (replay response)) = record state {
  idempotency_replay = some response;
}

unfoldable pub void {ℓ} :
    {A : Type ℓ} → Result A WebFrameworkError → Result (Unit {0}) WebFrameworkError
void (ok a) = ok tt
void (err error) = err error

-- the reservation under the key of the client
unfoldable pub reserve :
    SecurityPolicy → WebCallState → HeaderMap → Str → ℕ → ℕ → Entries → Reserved
unfolding resolve_idempotency_fingerprint retention_of record_outcome void
reserve policy state headers client_key now created entries =
    elim (resolve_idempotency_fingerprint state.method state.path state.operation_id headers
      policy.idempotency.require_body_hash_for_payload) [
        | err error ↦ ((entries, state), err error)
        | ok fingerprint ↦
            let store_key = scoped_idempotency_store_key state client_key in
            let begun = begin store_key fingerprint (retention_of policy) now created entries in
            ((begun.0, record_outcome state store_key fingerprint begun.1), void begun.1)
      ]

-- the guards of the stage before the handler
unfoldable pub idempotency_before :
    SecurityPolicy → WebCallState → HeaderMap → ℕ → ℕ → Entries → Reserved
unfolding reserve validate_idempotency_key is_idempotent_command
idempotency_before policy state headers now created entries =
    if not (
      (policy.idempotency.require_for_retryable_commands || state.manifest_idempotent)
      && is_idempotent_command state.method
      && not state.cors_preflight)
    then ((entries, state), ok tt)
    else if not state.public_path && not (credentials_present state)
    then ((entries, state), ok tt)
    else elim (or_else state.idempotency_key (header_value headers (lit "Idempotency-Key"))) [
      | none ↦ (
        (entries, state),
        err (bad_request (lit "Idempotency-Key header is required for this command")),
      )
      | some client_key ↦ elim (validate_idempotency_key client_key) [
        | err error ↦ ((entries, state), err error)
        | ok u ↦ reserve policy state headers client_key now created entries
      ]
    ]

pub record HandlerResponse : Type 0 where
  pub status : ℕ
  pub body : List ℕ
  pub content_type : Option Str

-- `Response::new(Body::empty())`
abbrev pub empty_response : HandlerResponse
empty_response = record { status = 200; body = []; content_type = none }

unfoldable pub is_event_stream_response : HandlerResponse → Bool
is_event_stream_response response = elim response.content_type [
  | none ↦ false
  | some value ↦ starts_with (lit "text/event-stream") (to_ascii_lowercase value)
]

unfoldable pub is_success : ℕ → Bool
is_success status = leb 200 status && ltb status 300

abbrev pub Settled : Type 0
Settled = (Entries × HandlerResponse) × Result (Unit {0}) WebFrameworkError

-- The capture of the body, whose stream does not break off, and what the store is told; errors of
-- the store are only logged.
unfoldable pub settle_response :
    SecurityPolicy → Str → Str → ℕ → HandlerResponse → Entries → Settled
unfolding is_event_stream_response is_success retention_of
settle_response policy key fingerprint now response entries =
    if is_event_stream_response response
    then ((release key fingerprint entries, response), ok tt)
    else if ltb policy.idempotency.max_cached_response_bytes (length response.body)
    then (
      (entries, empty_response),
      err (payload_too_large (lit "idempotency response exceeds cache limit")),
    )
    else if not (is_success response.status)
    then ((release key fingerprint entries, response), ok tt)
    else (
      (
        (complete key fingerprint
            (record {
              status_code = response.status;
              body = response.body;
              content_type = response.content_type;
            })
            (retention_of policy) now entries).0,
        response,
      ),
      ok tt,
    )

-- the stage after the handler
unfoldable pub idempotency_after :
    SecurityPolicy → WebCallState → ℕ → HandlerResponse → Entries → Settled
unfolding settle_response
idempotency_after policy state now response entries =
    if not state.idempotency_leader
    then ((entries, response), ok tt)
    else elim state.idempotency_key [
      | none ↦ ((entries, response), ok tt)
      | some key ↦ elim state.idempotency_fingerprint [
        | none ↦ ((entries, response), ok tt)
        | some fingerprint ↦ settle_response policy key fingerprint now response entries
      ]
    ]
