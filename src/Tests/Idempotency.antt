-- ===== src/Tests/Idempotency.antt =====
-- The stage of idempotency at concrete inputs.
use sdkwork_web_framework.Security.Requests.{content_length}
use sdkwork_web_framework.Base.Text.Ops.{trimmed_non_empty}
use sdkwork_web_framework.Base.{
  true, false, not, ◌&&◌, ◌||◌, none, some, [], ◌∷◌, ◌≡◌, refl, arith, length, ltb, ok, err,
}
use sdkwork_web_framework.Base.Text.{Str, lit, str_eq}
use sdkwork_web_framework.Base.Dict
use sdkwork_web_framework.Errors.{conflict, payload_too_large}
use sdkwork_web_framework.Hashing.{hash_key_material, utf8}
use sdkwork_web_framework.Http.{HeaderMap, header_value}
use sdkwork_web_framework.Pipeline.Idempotency.{
  HandlerResponse, is_event_stream_response, is_success, retention_of, idempotency_before,
  idempotency_after, resolve_idempotency_fingerprint, validate_idempotency_key,
  is_idempotent_command,
}
use sdkwork_web_framework.Pipeline.Idempotency.Replay.{
  IsCommand, record_of, idempotency_stage-replays,
}
use sdkwork_web_framework.Pipeline.Idempotency.Settlement.{
  idempotency_after-retries, large_response-blocks,
}
use sdkwork_web_framework.Pipeline.Keys.{scoped_idempotency_store_key}
use sdkwork_web_framework.Pipeline.State.{WebCallState, from_request}
use sdkwork_web_framework.Security.{SecurityPolicy, default_security}
use sdkwork_web_framework.Stores.Idempotency.{
  Entries, MemoryIdempotencyEntry, leader, begin, complete, is_fresh, cached, evict_over_budget,
  purge, purge_expired,
}

abbrev no_headers : HeaderMap
no_headers = λ name. none

-- responses of at most two bytes are kept, for a second
abbrev policy : SecurityPolicy
policy = record default_security {
  idempotency = record {
    require_for_retryable_commands = true;
    retention_secs = 1;
    max_cached_response_bytes = 2;
    require_body_hash_for_payload = true;
  };
}

-- a command on a public path, with the key `k`
abbrev command : WebCallState
command =
    record (from_request (λ path. path)
      (record { method = lit "POST"; path = lit "/o"; query = none; headers = no_headers })) {
        public_path = true;
        idempotency_key = some (lit "k");
      }

-- the digest of the scope `public`, and the key of the client
abbrev store_key : Str
store_key = lit "k"

abbrev print : Str
print = lit "f"

abbrev leading : WebCallState
leading = record command {
  idempotency_key = some store_key;
  idempotency_fingerprint = some print;
  idempotency_leader = true;
}

abbrev reserved_command : MemoryIdempotencyEntry
reserved_command = record { fingerprint = print; response = none; payload_bytes = 0; created = 10 }

abbrev reserved_store : Entries
reserved_store = (store_key, reserved_command) ∷ []

command-leads : begin store_key print 100 9 10 [] ≡ (reserved_store, ok leader)
unfolding begin Dict.get purge purge_expired evict_over_budget Dict.retain cached Dict.insert
command-leads = refl

abbrev failure : HandlerResponse
failure = record { status = 422; body = 1 ∷ []; content_type = none }

failure-settles :
    (is_event_stream_response failure
      || (not (ltb policy.idempotency.max_cached_response_bytes (length failure.body))
          && not (is_success failure.status)))
    ≡ true
unfolding is_event_stream_response is_success
failure-settles = refl

idempotency_after-retries_example :
    (begin store_key
      (lit "g")
      100
      30
      31
      (idempotency_after policy leading 20 failure reserved_store).0.0).1
    ≡ ok leader
idempotency_after-retries_example =
    idempotency_after-retries policy leading store_key print 100 9 10 [] reserved_store 20 failure
      command-leads (refl, refl, refl) failure-settles (lit "g") 100 30 31

abbrev large : HandlerResponse
large = record { status = 201; body = 1 ∷ 2 ∷ 3 ∷ []; content_type = none }

large-plain : is_event_stream_response large ≡ false
unfolding is_event_stream_response
large-plain = refl

large-exceeds : ltb policy.idempotency.max_cached_response_bytes (length large.body) ≡ true
large-exceeds = refl

large_response-blocks_example :
    ((idempotency_after policy leading 20 large reserved_store).1
      ≡ err (payload_too_large (lit "idempotency response exceeds cache limit")))
    × ((begin store_key print 100 30 31
          (idempotency_after policy leading 20 large reserved_store).0.0).1
        ≡ err (conflict (lit "idempotency key is already in progress")))
unfolding begin cached
large_response-blocks_example =
    large_response-blocks policy leading store_key print 100 9 10 [] reserved_store 20 large
      command-leads (record { few = omega arith; small = omega arith }) (refl, refl, refl)
      large-plain large-exceeds 100 30 31 (omega arith)

-- the store key and the fingerprint of the command
abbrev scoped_key : Str
scoped_key = lit "f4b72165f60f5b60:k"

abbrev scoped_print : Str
scoped_print = lit "9e5c7b27baaae99d"

command-scoped : scoped_idempotency_store_key command (lit "k") ≡ scoped_key
unfolding lit scoped_idempotency_store_key hash_key_material
command-scoped = refl

command-printed :
    resolve_idempotency_fingerprint command.method command.path command.operation_id no_headers
      policy.idempotency.require_body_hash_for_payload
    ≡ ok scoped_print
unfolding resolve_idempotency_fingerprint header_value trimmed_non_empty content_length lit
    hash_key_material from_request
command-printed = refl

command-short : validate_idempotency_key (lit "k") ≡ ok tt
unfolding validate_idempotency_key utf8 lit
command-short = refl

command-retryable : is_idempotent_command command.method ≡ true
unfolding is_idempotent_command str_eq from_request lit
command-retryable = refl

command-IsCommand : IsCommand policy command no_headers (lit "k") scoped_print
unfolding from_request str_eq lit
command-IsCommand = record {
  required = refl;
  retryable = command-retryable;
  no_preflight = refl;
  credited = refl;
  carries = refl;
  short = command-short;
  printed = command-printed;
}

abbrev leading_command : WebCallState
leading_command = record command {
  idempotency_key = some scoped_key;
  idempotency_fingerprint = some scoped_print;
  idempotency_leader = true;
}

abbrev created_order : HandlerResponse
created_order = record { status = 201; body = 1 ∷ 2 ∷ []; content_type = none }

order-plain : is_event_stream_response created_order ≡ false
unfolding is_event_stream_response
order-plain = refl

order-fits : ltb policy.idempotency.max_cached_response_bytes (length created_order.body) ≡ false
order-fits = refl

order-success : is_success created_order.status ≡ true
unfolding is_success
order-success = refl

abbrev completed_command : MemoryIdempotencyEntry
completed_command = record {
  fingerprint = scoped_print;
  response = some (record_of created_order);
  payload_bytes = 2;
  created = 10;
}

order-completes :
    complete scoped_key scoped_print
      (record_of created_order)
      (retention_of policy)
      20
      ((scoped_key, record completed_command { response = none; payload_bytes = 0 }) ∷ [])
    ≡ ((scoped_key, completed_command) ∷ [], ok tt)
unfolding complete Dict.get purge purge_expired evict_over_budget Dict.retain is_fresh retention_of
    cached str_eq lit Dict.insert
order-completes = refl

order-found : Dict.get scoped_key ((scoped_key, completed_command) ∷ []) ≡ some completed_command
unfolding Dict.get str_eq lit
order-found = refl

order-fresh : is_fresh 90 (retention_of policy) completed_command ≡ true
unfolding is_fresh retention_of
order-fresh = refl

idempotency_stage-replays_example :
    (let settled =
        (idempotency_after policy leading_command 20 created_order (
          (scoped_key, record completed_command { response = none; payload_bytes = 0 })
          ∷ [])).0.0 in
      ((idempotency_before policy command no_headers 90 95 settled).1 ≡ ok tt)
      × ((idempotency_before policy command no_headers 90 95 settled).0.1
          ≡ record command { idempotency_replay = some (record_of created_order) }))
idempotency_stage-replays_example =
    idempotency_stage-replays policy leading_command command no_headers scoped_key (lit "k")
      scoped_print 20 90 95 created_order
      ((scoped_key, record completed_command { response = none; payload_bytes = 0 }) ∷ [])
      ((scoped_key, completed_command) ∷ []) completed_command (refl, refl, refl) order-plain
      order-fits order-success order-completes order-found order-fresh command-IsCommand
      command-scoped
