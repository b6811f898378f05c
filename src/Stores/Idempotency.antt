-- ===== src/Stores/Idempotency.antt =====
-- `MemoryIdempotencyStore` of crates/sdkwork-web-core/src/stores.rs, with the records of
-- idempotency.rs. Instants and durations are nanoseconds; `duration_since` is 0 for a later
-- instant. Sizes are sums of lengths in memory, which no machine word overflows.
pub mod Coverage
pub mod Budget
pub mod Protocol
pub mod Exclusion
pub mod Guard
use sdkwork_web_framework.Base.{
  ℕ, ◌+◌, ◌-◌, ◌*◌, Bool, true, false, not, ◌&&◌, ◌||◌, Option, none, some, List, [], ◌∷◌,
  if◌then◌else◌, ltb, leb, is_some, length, Result, ok, err,
}
use sdkwork_web_framework.Base.Text.{Str, lit, str_eq}
use sdkwork_web_framework.Base.Dict
use sdkwork_web_framework.Base.Dict.{Dict}
use sdkwork_web_framework.Errors.{WebFrameworkError, conflict, bad_request}

pub record IdempotencyResponseRecord : Type 0 where
  pub status_code : ℕ
  pub body : List ℕ
  pub content_type : Option Str

pub data IdempotencyBeginOutcome : Type 0 where
  leader : IdempotencyBeginOutcome
  replay : IdempotencyResponseRecord → IdempotencyBeginOutcome

pub record MemoryIdempotencyEntry : Type 0 where
  pub fingerprint : Str
  pub response : Option IdempotencyResponseRecord
  pub payload_bytes : ℕ
  pub created : ℕ

abbrev pub Entries : Type 0
Entries = Dict MemoryIdempotencyEntry

abbrev pub memory_idempotency_max_entries : ℕ
memory_idempotency_max_entries = 10_000

abbrev pub memory_idempotency_max_cached_bytes : ℕ
memory_idempotency_max_cached_bytes = 256 * 1024 * 1024

-- `values().map(|entry| entry.payload_bytes).sum()`
unfoldable pub cached : Entries → ℕ
cached [] = 0
cached ((k, e) ∷ entries) = e.payload_bytes + cached entries

-- What the vector `oldest` holds of an entry.
pub record Aged : Type 0 where
  pub key : Str
  pub created : ℕ
  pub bytes : ℕ

unfoldable pub aged : Entries → List Aged
aged [] = []
aged ((k, e) ∷ entries) =
    record { key = k; created = e.created; bytes = e.payload_bytes } ∷ aged entries

-- `sort_by_key(|(_, created, _)| *created)`, which is stable
unfoldable pub insert_aged : Aged → List Aged → List Aged
insert_aged a [] = a ∷ []
insert_aged a (b ∷ l) =
    let rest = insert_aged a l in if leb a.created b.created then a ∷ b ∷ l else b ∷ rest

unfoldable pub sort_by_created : List Aged → List Aged
sort_by_created [] = []
sort_by_created (a ∷ l) = insert_aged a (sort_by_created l)

-- the loop of `evict_over_budget`, with what is still to visit and the running total
unfoldable pub evict_loop : ℕ → ℕ → List Aged → ℕ → Entries → Entries
evict_loop max_entries max_bytes [] cached_bytes entries = entries
evict_loop max_entries max_bytes (a ∷ oldest) cached_bytes entries =
    let found = is_some (Dict.get a.key entries) in
    let rest =
      evict_loop max_entries max_bytes oldest
        (if found then cached_bytes - a.bytes else cached_bytes)
        (if found then Dict.remove a.key entries else entries) in
    if leb (length entries) max_entries && leb cached_bytes max_bytes then entries else rest

unfoldable pub evict_over_budget : ℕ → ℕ → Entries → Entries
unfolding evict_loop
evict_over_budget max_entries max_bytes entries =
    if ltb max_entries (length entries) || ltb max_bytes (cached entries)
    then evict_loop max_entries max_bytes (sort_by_created (aged entries)) (cached entries) entries
    else entries

unfoldable pub is_fresh : ℕ → ℕ → MemoryIdempotencyEntry → Bool
is_fresh now ttl entry = ltb (now - entry.created) ttl

unfoldable pub purge_expired : ℕ → ℕ → ℕ → ℕ → Entries → Entries
purge_expired now ttl max_entries max_bytes entries =
    evict_over_budget max_entries max_bytes
      (Dict.retain (λ k entry. is_fresh now ttl entry) entries)

-- the purge with the store's own limits
unfoldable pub purge : ℕ → ℕ → Entries → Entries
purge now ttl entries =
    purge_expired now ttl memory_idempotency_max_entries memory_idempotency_max_cached_bytes entries

-- what `begin` answers for a key that is there
unfoldable pub begin_existing :
    Str → MemoryIdempotencyEntry → Result IdempotencyBeginOutcome WebFrameworkError
begin_existing fingerprint entry =
    if not (str_eq entry.fingerprint fingerprint)
    then err
        (conflict (lit "idempotency key was already used with a different request fingerprint"))
    else elim entry.response [
      | none ↦ err (conflict (lit "idempotency key is already in progress"))
      | some response ↦ ok (replay response)
    ]

-- `begin`; the purge reads the clock at `now`, the new entry at `created`.
unfoldable pub begin :
    Str → Str → ℕ → ℕ → ℕ → Entries → Entries × Result IdempotencyBeginOutcome WebFrameworkError
unfolding begin_existing
begin key fingerprint ttl now created entries =
    let entries' = purge now ttl entries in
    elim (Dict.get key entries') [
      | some entry ↦ (entries', begin_existing fingerprint entry)
      | none ↦ (
        Dict.insert key
            (record {
              fingerprint = fingerprint;
              response = none;
              payload_bytes = 0;
              created = created;
            })
            entries',
        ok leader,
      )
    ]

unfoldable pub complete :
    Str
    → Str
    → IdempotencyResponseRecord
    → ℕ
    → ℕ
    → Entries
    → Entries × Result (Unit {0}) WebFrameworkError
complete key fingerprint response ttl now entries =
    let entries' = purge now ttl entries in
    elim (Dict.get key entries') [
      | none ↦ (entries', err (bad_request (lit "idempotency key was not reserved")))
      | some entry ↦
          if not (str_eq entry.fingerprint fingerprint)
          then (
            entries',
            err (conflict (lit "idempotency key fingerprint mismatch while completing response")),
          )
          else (
            evict_over_budget memory_idempotency_max_entries memory_idempotency_max_cached_bytes (
                Dict.insert key
                  (record entry { response = some response; payload_bytes = length response.body })
                  entries'),
            ok tt,
          )
    ]

unfoldable pub release : Str → Str → Entries → Entries
release key fingerprint entries = elim (Dict.get key entries) [
  | none ↦ entries
  | some entry ↦
      if not (str_eq entry.fingerprint fingerprint)
      then entries
      else if is_some entry.response
      then entries
      else Dict.remove key entries
]
