-- ===== src/Stores/Idempotency/Exclusion.antt =====
-- What the requests that run while a leader works do to its reservation.
use sdkwork_web_framework.Base.{
  ℕ, ◌+◌, ◌-◌, ◌<◌, ◌≤◌, true, false, some, [], ◌∷◌, ◌≡◌, ap, arith, if◌then◌else◌, length, ok, err,
  Bool-cases, Option-cases, inl, inr,
}
use sdkwork_web_framework.Base.Text.{Str, lit, str_eq}
use sdkwork_web_framework.Base.Text.Laws.{str_eq_sound}
use sdkwork_web_framework.Base.Dict
use sdkwork_web_framework.Base.Dict.{get-insert, get-remove, length-retain}
use sdkwork_web_framework.Errors.{conflict}
use sdkwork_web_framework.Stores.Idempotency.{
  IdempotencyResponseRecord, leader, MemoryIdempotencyEntry, Entries, cached,
  memory_idempotency_max_entries, memory_idempotency_max_cached_bytes, evict_over_budget, is_fresh,
  purge, begin_existing, begin, complete, release,
}
use sdkwork_web_framework.Stores.Idempotency.Budget.{evict_over_budget_of_Fits}
use sdkwork_web_framework.Stores.Idempotency.Protocol.{
  FitsStore, cached-retain, purge_of_Fits, purge-fresh, reserved, leader_entry, answered,
  begin-fresh,
}

reserved-is_fresh :
    (fingerprint : Str) (created now ttl : ℕ)
    → now - created < ttl
    → is_fresh now ttl (reserved fingerprint created) ≡ true
unfolding is_fresh reserved
reserved-is_fresh fingerprint created now ttl soon = ground arith

-- what a request is answered where a fresh reservation stands
reserved-excludes :
    (key fingerprint : Str) (created : ℕ) (s : Entries)
    → Dict.get key s ≡ some (reserved fingerprint created)
    → FitsStore s
    → (fingerprint' : Str) (ttl' now' created' : ℕ) → now' - created < ttl'
    → (begin key fingerprint' ttl' now' created' s).1
      ≡ err (
          conflict (
            if str_eq fingerprint fingerprint'
            then lit "idempotency key is already in progress"
            else lit "idempotency key was already used with a different request fingerprint"))
unfolding begin_existing reserved
reserved-excludes key fingerprint created s found f fingerprint' ttl' now' created' soon =
    rw
      (begin-fresh key fingerprint' ttl' now' created' s (reserved fingerprint created) f found
        (reserved-is_fresh fingerprint created now' ttl' soon))
      (ground arith)

-- The request right after the one that became the leader for a key, in a store within its limits,
-- does not become the leader for that key before the entry expires.
pub next_begin-excludes :
    (key fingerprint : Str) (ttl now created : ℕ) (entries s : Entries)
    → begin key fingerprint ttl now created entries ≡ (s, ok leader)
    → FitsStore s
    → (fingerprint' : Str) (ttl' now' created' : ℕ) → now' - created < ttl'
    → (begin key fingerprint' ttl' now' created' s).1
      ≡ err (
          conflict (
            if str_eq fingerprint fingerprint'
            then lit "idempotency key is already in progress"
            else lit "idempotency key was already used with a different request fingerprint"))
next_begin-excludes key fingerprint ttl now created entries s led =
    reserved-excludes key fingerprint created s
      (leader_entry key fingerprint ttl now created entries s led)

-- What runs on the store between two states, while a leader for `key` works: any request begins,
-- and one under another key completes or is released. Each begin and completion finds the store
-- within its limits, before an entry of the time `created` expires under the request's retention,
-- and a completion has room for its response.
pub data Meanwhile (key : Str) (created : ℕ) : Entries → Entries → Type 0 where
  done : {s : Entries} → Meanwhile key created s s
  begun :
      {s t : Entries} (key' fingerprint : Str) (ttl now created' : ℕ)
      → FitsStore s
      → now - created < ttl
      → Meanwhile key created (begin key' fingerprint ttl now created' s).0 t
      → Meanwhile key created s t
  completed :
      {s t : Entries} (key' fingerprint : Str) (response : IdempotencyResponseRecord) (ttl now : ℕ)
      → str_eq key' key ≡ false
      → FitsStore s
      → now - created < ttl
      → cached s + length response.body ≤ memory_idempotency_max_cached_bytes
      → Meanwhile key created (complete key' fingerprint response ttl now s).0 t
      → Meanwhile key created s t
  released :
      {s t : Entries} (key' fingerprint : Str)
      → str_eq key' key ≡ false
      → Meanwhile key created (release key' fingerprint s) t
      → Meanwhile key created s t

-- a begin under any key leaves a fresh entry where it is
begin-keeps :
    (key key' fingerprint : Str) (ttl now created : ℕ) (s : Entries) (e : MemoryIdempotencyEntry)
    → FitsStore s
    → Dict.get key s ≡ some e
    → is_fresh now ttl e ≡ true
    → Dict.get key (begin key' fingerprint ttl now created s).0 ≡ some e
unfolding begin
begin-keeps key key' fingerprint ttl now created s e f found fresh =
    let kept = purge-fresh now ttl key s e f found fresh in
    elim (Option-cases (Dict.get key' (purge now ttl s))) [
      | inr (other, taken) ↦ rw (begin, taken) kept
      | inl free ↦ elim (Bool-cases (str_eq key' key)) [
        | inl same ↦ cc (kept, str_eq_sound key' key same)
        | inr apart ↦ rw (begin, free, get-insert, apart) kept
      ]
    ]

release-keeps :
    (key key' fingerprint : Str) (s : Entries) (e : MemoryIdempotencyEntry)
    → str_eq key' key ≡ false
    → Dict.get key s ≡ some e
    → Dict.get key (release key' fingerprint s) ≡ some e
unfolding release
release-keeps key key' fingerprint s e apart found = ground (arith, get-remove key' key s)

cached-insert :
    (k : Str) (v : MemoryIdempotencyEntry) (entries : Entries)
    → cached (Dict.insert k v entries) ≤ cached entries + v.payload_bytes
unfolding Dict.insert cached
cached-insert k v [] = omega arith
cached-insert k v ((j, w) ∷ entries) = ground (arith, cached-insert k v entries)

length-insert :
    (k : Str) (v w : MemoryIdempotencyEntry) (entries : Entries)
    → Dict.get k entries ≡ some w
    → length (Dict.insert k v entries) ≡ length entries
unfolding Dict.insert Dict.get
length-insert k v w [] h = cc h
length-insert k v w ((j, x) ∷ entries) h = ground (arith, length-insert k v w entries, h)

-- a response for which there is room evicts nothing
answered-stays :
    (key : Str) (response : IdempotencyResponseRecord) (ttl now : ℕ) (s : Entries)
    (old : MemoryIdempotencyEntry)
    → FitsStore s
    → cached s + length response.body ≤ memory_idempotency_max_cached_bytes
    → Dict.get key (purge now ttl s) ≡ some old
    → let entries = Dict.insert key (answered old response) (purge now ttl s) in
      evict_over_budget memory_idempotency_max_entries memory_idempotency_max_cached_bytes entries
      ≡ entries
unfolding answered
answered-stays key response ttl now s old f room taken =
    let fresh = λ (k : Str) (entry : MemoryIdempotencyEntry). is_fresh now ttl entry in
    let same = purge_of_Fits now ttl s f in
    evict_over_budget_of_Fits memory_idempotency_max_entries memory_idempotency_max_cached_bytes
      (Dict.insert key (answered old response) (purge now ttl s))
      (record {
        few = omega (
          arith,
          length-insert key (answered old response) old (purge now ttl s) taken,
          f.few,
          ap (λ (l : Entries). length l) same,
          length-retain fresh s,
        );
        small = omega (
          arith,
          cached-insert key (answered old response) (purge now ttl s),
          ap (λ (l : Entries). cached l) same,
          cached-retain fresh s,
          room,
        );
      })

complete-keeps :
    (key key' fingerprint : Str) (response : IdempotencyResponseRecord) (ttl now : ℕ) (s : Entries)
    (e : MemoryIdempotencyEntry)
    → str_eq key' key ≡ false
    → FitsStore s
    → cached s + length response.body ≤ memory_idempotency_max_cached_bytes
    → Dict.get key s ≡ some e
    → is_fresh now ttl e ≡ true
    → Dict.get key (complete key' fingerprint response ttl now s).0 ≡ some e
unfolding complete answered
complete-keeps key key' fingerprint response ttl now s e apart f room found fresh =
    let kept = purge-fresh now ttl key s e f found fresh in
    elim (Option-cases (Dict.get key' (purge now ttl s))) [
      | inl free ↦ rw (complete, free) kept
      | inr (old, taken) ↦ elim (Bool-cases (str_eq old.fingerprint fingerprint)) [
        | inr other ↦ rw (complete, taken, other) kept
        | inl same ↦
            rw
              (
                complete,
                taken,
                same,
                answered-stays key' response ttl now s old f room taken,
                get-insert,
                apart,
              )
              kept
      ]
    ]

-- a reservation lives through what runs meanwhile
Meanwhile-reserved :
    (key fingerprint : Str) (created : ℕ) (s t : Entries)
    → Meanwhile key created s t
    → Dict.get key s ≡ some (reserved fingerprint created)
    → Dict.get key t ≡ some (reserved fingerprint created)
Meanwhile-reserved key fingerprint created s t done found = found
Meanwhile-reserved key fingerprint created s t (begun key' other ttl now created' f soon rest)
      found =
    Meanwhile-reserved key fingerprint created (begin key' other ttl now created' s).0 t rest (
      begin-keeps key key' other ttl now created' s (reserved fingerprint created) f found
        (reserved-is_fresh fingerprint created now ttl soon))
Meanwhile-reserved key fingerprint created s t
      (completed key' other response ttl now apart f soon room rest) found =
    Meanwhile-reserved key fingerprint created (complete key' other response ttl now s).0 t rest (
      complete-keeps key key' other response ttl now s (reserved fingerprint created) apart f room
        found (reserved-is_fresh fingerprint created now ttl soon))
Meanwhile-reserved key fingerprint created s t (released key' other apart rest) found =
    Meanwhile-reserved key fingerprint created (release key' other s) t rest
      (release-keeps key key' other s (reserved fingerprint created) apart found)

-- After a request has become the leader for a key, whatever requests begin and whatever requests
-- under other keys complete or are released meanwhile, in any order, a request under the key is
-- told that the key is in progress if it has the leader's fingerprint, and that the key was used
-- differently if it has another one. The conditions are that every begin and completion, the last
-- one included, finds the store within its limits and comes before the leader's entry expires
-- under its retention, that a completion has room for its response, and that the leader's key is
-- neither completed nor released.
pub begin-excludes :
    (key fingerprint : Str) (ttl now created : ℕ) (entries s t : Entries)
    → begin key fingerprint ttl now created entries ≡ (s, ok leader)
    → Meanwhile key created s t
    → FitsStore t
    → (fingerprint' : Str) (ttl' now' created' : ℕ) → now' - created < ttl'
    → (begin key fingerprint' ttl' now' created' t).1
      ≡ err (
          conflict (
            if str_eq fingerprint fingerprint'
            then lit "idempotency key is already in progress"
            else lit "idempotency key was already used with a different request fingerprint"))
begin-excludes key fingerprint ttl now created entries s t led meanwhile =
    reserved-excludes key fingerprint created t (
      Meanwhile-reserved key fingerprint created s t meanwhile
        (leader_entry key fingerprint ttl now created entries s led))
