-- ===== src/Stores/Idempotency/Protocol.antt =====
-- The idempotency protocol: what a second request under a key is answered after the first one has
-- completed or released it.
use sdkwork_web_framework.Base.{
  ℕ, ◌≤◌, Bool, true, none, some, [], ◌∷◌, ◌≡◌, ◌≢◌, refl, sym, ap, arith, if◌then◌else◌, length,
  ok, err, Bool-cases, Option-cases, inl, inr,
}
use sdkwork_web_framework.Base.Text.{Str, lit, str_eq}
use sdkwork_web_framework.Base.Text.Laws.{str_eq_iff, str_eq_refl}
use sdkwork_web_framework.Base.Dict
use sdkwork_web_framework.Base.Dict.{
  Dict, get-insert, get-remove, get-retain, get-retain-none, length-retain,
}
use sdkwork_web_framework.Errors.{conflict}
use sdkwork_web_framework.Stores.Idempotency.{
  IdempotencyResponseRecord, leader, replay, MemoryIdempotencyEntry, Entries,
  memory_idempotency_max_entries, memory_idempotency_max_cached_bytes, cached, evict_over_budget,
  is_fresh, purge_expired, purge, begin_existing, begin, complete, release,
}
use sdkwork_web_framework.Stores.Idempotency.Budget.{
  Fits, evict_over_budget-Fits, evict_over_budget-get, evict_over_budget_of_Fits,
}

-- The limits of the store itself.
abbrev pub FitsStore : Entries → Type 0
FitsStore = Fits memory_idempotency_max_entries memory_idempotency_max_cached_bytes

pub cached-retain :
    (keep : Str → MemoryIdempotencyEntry → Bool) (entries : Entries)
    → cached (Dict.retain keep entries) ≤ cached entries
unfolding Dict.retain cached
cached-retain keep [] = omega arith
cached-retain keep ((k, e) ∷ entries) = ground (arith, cached-retain keep entries)

-- within the limits the purge drops what has expired and evicts nothing
pub purge_of_Fits :
    (now ttl : ℕ) (entries : Entries)
    → FitsStore entries
    → purge now ttl entries ≡ Dict.retain (λ k entry. is_fresh now ttl entry) entries
unfolding purge purge_expired
purge_of_Fits now ttl entries f =
    evict_over_budget_of_Fits memory_idempotency_max_entries memory_idempotency_max_cached_bytes
      (Dict.retain (λ k entry. is_fresh now ttl entry) entries)
      (record {
        few = omega (arith, length-retain (λ k entry. is_fresh now ttl entry) entries, f.few);
        small = omega (arith, cached-retain (λ k entry. is_fresh now ttl entry) entries, f.small);
      })

pub purge-fresh :
    (now ttl : ℕ) (key : Str) (entries : Entries) (e : MemoryIdempotencyEntry)
    → FitsStore entries
    → Dict.get key entries ≡ some e
    → is_fresh now ttl e ≡ true
    → Dict.get key (purge now ttl entries) ≡ some e
purge-fresh now ttl key entries e f found fresh =
    rw (purge_of_Fits now ttl entries f)
      (get-retain (λ k entry. is_fresh now ttl entry) key entries e found fresh)

purge-none :
    (now ttl : ℕ) (key : Str) (entries : Entries)
    → Dict.get key entries ≡ none
    → Dict.get key (purge now ttl entries) ≡ none
unfolding purge purge_expired
purge-none now ttl key entries gone = elim (Option-cases (Dict.get key (purge now ttl entries))) [
  | inl none_left ↦ none_left
  | inr (e, left) ↦
      let before =
        evict_over_budget-get memory_idempotency_max_entries memory_idempotency_max_cached_bytes
          (Dict.retain (λ k entry. is_fresh now ttl entry) entries) key e left in
      cc (before, get-retain-none (λ k entry. is_fresh now ttl entry) key entries gone)
]

-- Whatever the store held, a purge leaves it within the store's limits.
pub purge-Fits : (now ttl : ℕ) (entries : Entries) → FitsStore (purge now ttl entries)
unfolding purge purge_expired
purge-Fits now ttl entries =
    evict_over_budget-Fits memory_idempotency_max_entries memory_idempotency_max_cached_bytes
      (Dict.retain (λ k entry. is_fresh now ttl entry) entries)

begin_existing≢leader :
    (fingerprint : Str) (e : MemoryIdempotencyEntry) → begin_existing fingerprint e ≢ ok leader
unfolding begin_existing
begin_existing≢leader fingerprint e h = ground (arith, h)

-- the entry that a leader has reserved
unfoldable pub reserved : Str → ℕ → MemoryIdempotencyEntry
reserved fingerprint created = record {
  fingerprint = fingerprint;
  response = none;
  payload_bytes = 0;
  created = created;
}

leader_store :
    (key fingerprint : Str) (ttl now created : ℕ) (entries s : Entries)
    → begin key fingerprint ttl now created entries ≡ (s, ok leader)
    → s ≡ Dict.insert key (reserved fingerprint created) (purge now ttl entries)
unfolding begin reserved
leader_store key fingerprint ttl now created entries s h =
    elim (Option-cases (Dict.get key (purge now ttl entries))) [
      | inl free ↦ sym (ap (λ p. p.0) (rw (begin, free) at h))
      | inr (e, taken) ↦
          absurd (begin_existing≢leader fingerprint e (ap (λ p. p.1) (rw (begin, taken) at h)))
    ]

pub leader_entry :
    (key fingerprint : Str) (ttl now created : ℕ) (entries s : Entries)
    → begin key fingerprint ttl now created entries ≡ (s, ok leader)
    → Dict.get key s ≡ some (reserved fingerprint created)
leader_entry key fingerprint ttl now created entries s h =
    rw
      (
        leader_store key fingerprint ttl now created entries s h,
        get-insert key key (reserved fingerprint created) (purge now ttl entries),
        str_eq_refl key,
      )
      refl

-- what a completed entry is turned into
unfoldable pub answered :
    MemoryIdempotencyEntry → IdempotencyResponseRecord → MemoryIdempotencyEntry
answered old response = record old {
  response = some response;
  payload_bytes = length response.body;
}

completed :
    (key fingerprint : Str) (response : IdempotencyResponseRecord) (entries : Entries)
    (old : MemoryIdempotencyEntry) (s : Entries) (e : MemoryIdempotencyEntry)
    → old.fingerprint ≡ fingerprint
    → evict_over_budget memory_idempotency_max_entries memory_idempotency_max_cached_bytes
        (Dict.insert key (answered old response) entries)
      ≡ s
    → Dict.get key s ≡ some e
    → (e.fingerprint ≡ fingerprint) × (e.response ≡ some response) × FitsStore s
unfolding answered
completed key fingerprint response entries old s e same stored found =
    let written : Dict.get key (Dict.insert key (answered old response) entries) ≡ some e =
      evict_over_budget-get memory_idempotency_max_entries memory_idempotency_max_cached_bytes
        (Dict.insert key (answered old response) entries) key e (rw stored found) in
    let kept : answered old response ≡ e =
      cc (rw (get-insert key key (answered old response) entries, str_eq_refl key) at written) in
    (
      rw (← kept) same,
      rw (← kept) refl,
      rw (← stored) (
          evict_over_budget-Fits memory_idempotency_max_entries memory_idempotency_max_cached_bytes
            (Dict.insert key (answered old response) entries)),
    )

-- the entry that a completion leaves
completed_entry :
    (key fingerprint : Str) (response : IdempotencyResponseRecord) (ttl now : ℕ)
    (entries s : Entries) (e : MemoryIdempotencyEntry)
    → complete key fingerprint response ttl now entries ≡ (s, ok tt)
    → Dict.get key s ≡ some e
    → (e.fingerprint ≡ fingerprint) × (e.response ≡ some response) × FitsStore s
unfolding complete answered
completed_entry key fingerprint response ttl now entries s e h found =
    elim (Option-cases (Dict.get key (purge now ttl entries))) [
      | inl free ↦ cc (ap (λ p. p.1) (rw (complete, free) at h))
      | inr (old, taken) ↦ elim (Bool-cases (str_eq old.fingerprint fingerprint)) [
        | inl same ↦
            completed key fingerprint response (purge now ttl entries) old s e
              (ground (arith, str_eq_iff old.fingerprint fingerprint))
              (ap (λ p. p.0) (rw (complete, taken, same) at h)) found
        | inr other ↦ cc (ap (λ p. p.1) (rw (complete, taken, other) at h))
      ]
    ]

-- what a request is answered while a fresh entry stands in a store within its limits
pub begin-fresh :
    (key fingerprint : Str) (ttl now created : ℕ) (s : Entries) (e : MemoryIdempotencyEntry)
    → FitsStore s
    → Dict.get key s ≡ some e
    → is_fresh now ttl e ≡ true
    → (begin key fingerprint ttl now created s).1 ≡ begin_existing fingerprint e
unfolding begin
begin-fresh key fingerprint ttl now created s e f found fresh =
    rw (begin, purge-fresh now ttl key s e f found fresh) refl

-- After a completion whose entry was not evicted at once, a request under the same key that comes
-- before the entry expires is answered with the stored response when its fingerprint is that of
-- the completed request, and with a conflict when it is another one.
pub complete-begin :
    (key fingerprint : Str) (response : IdempotencyResponseRecord) (ttl now : ℕ)
    (entries s : Entries) (e : MemoryIdempotencyEntry)
    → complete key fingerprint response ttl now entries ≡ (s, ok tt)
    → Dict.get key s ≡ some e
    → (fingerprint' : Str) (ttl' now' created : ℕ) → is_fresh now' ttl' e ≡ true
    → (begin key fingerprint' ttl' now' created s).1 ≡ (
        if str_eq fingerprint fingerprint'
        then ok (replay response)
        else err (
            conflict (lit "idempotency key was already used with a different request fingerprint")))
unfolding begin_existing
complete-begin key fingerprint response ttl now entries s e done found fingerprint' ttl' now'
      created fresh =
    let (same, stored, f) =
      completed_entry key fingerprint response ttl now entries s e done found in
    rw (begin-fresh key fingerprint' ttl' now' created s e f found fresh, same, stored)
      (ground arith)

-- After the leader for a key has released it, the next request under the key becomes the leader,
-- whatever its fingerprint and whenever it comes.
pub release-begin :
    (key fingerprint : Str) (ttl now created : ℕ) (entries s : Entries)
    → begin key fingerprint ttl now created entries ≡ (s, ok leader)
    → (fingerprint' : Str) (ttl' now' created' : ℕ)
    → (begin key fingerprint' ttl' now' created' (release key fingerprint s)).1 ≡ ok leader
unfolding begin release reserved
release-begin key fingerprint ttl now created entries s led fingerprint' ttl' now' created' =
    let gone : Dict.get key (release key fingerprint s) ≡ none =
      rw
        (
          release,
          leader_entry key fingerprint ttl now created entries s led,
          str_eq_refl fingerprint,
          get-remove key key s,
          str_eq_refl key,
        )
        refl in
    rw (begin, purge-none now' ttl' key (release key fingerprint s) gone) refl

-- A completed response survives a later release under the same key and fingerprint.
pub complete-release :
    (key fingerprint : Str) (response : IdempotencyResponseRecord) (ttl now : ℕ)
    (entries s : Entries) (e : MemoryIdempotencyEntry)
    → complete key fingerprint response ttl now entries ≡ (s, ok tt)
    → Dict.get key s ≡ some e
    → release key fingerprint s ≡ s
unfolding release
complete-release key fingerprint response ttl now entries s e done found =
    let (same, stored, f) =
      completed_entry key fingerprint response ttl now entries s e done found in
    rw (release, found, same, str_eq_refl fingerprint, stored) refl
