-- ===== src/Tests/Stores.antt =====
-- The stores of the process at concrete inputs.
use sdkwork_web_framework.Base.{
  ℕ, ◌≤◌, true, none, some, [], ◌∷◌, ◌≡◌, refl, arith, ok, err, is_ok, if◌then◌else◌,
}
use sdkwork_web_framework.Base.Text.{Str, lit, str_eq}
use sdkwork_web_framework.Base.Dict
use sdkwork_web_framework.Base.Dict.{Dict}
use sdkwork_web_framework.Errors.{conflict}
use sdkwork_web_framework.Stores.Admission
use sdkwork_web_framework.Stores.Admission.{ActiveCounts, or_insert, count_of, try_acquire}
use sdkwork_web_framework.Stores.Admission.InFlight.{
  World, acquired, start, then_step, held_for, in_flight_bounded, unlimited_release,
}
use sdkwork_web_framework.Stores.RateLimit.Window.{run, run-le-limit}
use sdkwork_web_framework.Stores.Idempotency
use sdkwork_web_framework.Stores.Idempotency.{
  IdempotencyResponseRecord, IdempotencyBeginOutcome, leader, replay, MemoryIdempotencyEntry,
  Entries, cached, evict_over_budget, is_fresh, purge_expired, purge, begin_existing, begin,
  complete,
}
use sdkwork_web_framework.Stores.Idempotency.Budget.{Fits, evict_over_budget-Fits}
use sdkwork_web_framework.Stores.Idempotency.Exclusion.{
  Meanwhile, begun, released, done, begin-excludes,
}
use sdkwork_web_framework.Stores.Idempotency.Protocol.{complete-begin, release-begin}

abbrev key : Str
key = b'k' ∷ []

abbrev empty_world : World
empty_world = record { active = []; leases = [] }

abbrev one_taken : World
one_taken = record { active = (key, 1) ∷ []; leases = key ∷ [] }

in_flight_bounded_example :
    (count_of key one_taken.active ≡ held_for key one_taken.leases)
    × (held_for key one_taken.leases ≤ 3)
unfolding count_of Dict.get try_acquire Dict.insert str_eq
in_flight_bounded_example =
    in_flight_bounded (λ k. 3) empty_world one_taken (λ k. omega arith)
      (record { counted = λ j. refl; bounded = λ j. omega arith })
      (then_step start (acquired key refl)) key

unlimited_release_example :
    (is_ok (try_acquire key 0 one_taken.active).1 ≡ true)
    × (count_of key (Admission.release key (try_acquire key 0 one_taken.active).0) ≡ 0)
unfolding count_of Dict.get str_eq
unlimited_release_example = unlimited_release key one_taken.active 0 refl

abbrev second : ℕ
second = 1_000_000_000

run-le-limit_example : (run key 2 second (5 ∷ 7 ∷ 9 ∷ []) []).1 ≤ 2
unfolding Dict.get
run-le-limit_example =
    run-le-limit key 2 second 5 (7 ∷ 9 ∷ []) [] (omega arith) refl (omega arith, (omega arith, tt))

abbrev fingerprint : Str
fingerprint = b'f' ∷ []

abbrev other : Str
other = b'g' ∷ []

abbrev response : IdempotencyResponseRecord
response = record { status_code = 201; body = 1 ∷ 2 ∷ []; content_type = none }

abbrev reserved_entry : MemoryIdempotencyEntry
reserved_entry = record {
  fingerprint = fingerprint;
  response = none;
  payload_bytes = 0;
  created = 10;
}

abbrev completed_entry : MemoryIdempotencyEntry
completed_entry = record {
  fingerprint = fingerprint;
  response = some response;
  payload_bytes = 2;
  created = 10;
}

evict_over_budget-Fits_example :
    Fits 1 0 (evict_over_budget 1 0 ((key, completed_entry) ∷ (other, reserved_entry) ∷ []))
evict_over_budget-Fits_example =
    evict_over_budget-Fits 1 0 ((key, completed_entry) ∷ (other, reserved_entry) ∷ [])

complete-begin_example : (begin key fingerprint second 90 95 ((key, completed_entry) ∷ [])).1 ≡ (
    if str_eq fingerprint fingerprint
    then ok (replay response)
    else err
        (conflict (lit "idempotency key was already used with a different request fingerprint")))
unfolding complete Dict.get purge purge_expired evict_over_budget Dict.retain is_fresh cached str_eq
    Dict.insert
complete-begin_example =
    complete-begin key fingerprint response second 50 ((key, reserved_entry) ∷ [])
      ((key, completed_entry) ∷ []) completed_entry refl refl fingerprint second 90 95 refl

-- while the leader works, a request under another key begins and is released
meanwhile : Meanwhile key 10 ((key, reserved_entry) ∷ []) ((key, reserved_entry) ∷ [])
unfolding begin Idempotency.release Dict.get purge purge_expired evict_over_budget Dict.retain
    cached Dict.insert Dict.remove str_eq is_fresh
meanwhile =
    begun (b'l' ∷ []) other second 20 21 (record { few = omega arith; small = omega arith })
      (omega arith) (released (b'l' ∷ []) other refl done)

begin-excludes_example :
    (begin key other second 30 31 ((key, reserved_entry) ∷ [])).1
    ≡ err (
        conflict (
          if str_eq fingerprint other
          then lit "idempotency key is already in progress"
          else lit "idempotency key was already used with a different request fingerprint"))
unfolding begin Dict.get purge purge_expired evict_over_budget Dict.retain cached Dict.insert
begin-excludes_example =
    begin-excludes key fingerprint second 9 10 [] ((key, reserved_entry) ∷ [])
      ((key, reserved_entry) ∷ []) refl meanwhile
      (record { few = omega arith; small = omega arith }) other second 30 31 (omega arith)

release-begin_example :
    (begin key other second 30 31
      (Idempotency.release key fingerprint ((key, reserved_entry) ∷ []))).1
    ≡ ok leader
unfolding begin Dict.get purge purge_expired evict_over_budget Dict.retain cached Dict.insert
release-begin_example =
    release-begin key fingerprint second 9 10 [] ((key, reserved_entry) ∷ []) refl other second 30
      31
