-- ===== src/Stores/Idempotency/Budget.antt =====
-- After an eviction the store is within its budgets, and nothing but whole entries has gone.
use sdkwork_web_framework.Base.{
  ℕ, ◌-◌, ◌≤◌, ◌&&◌, ◌||◌, some, List, [], ◌∷◌, ◌≡◌, arith, leb, ltb, is_some, length, Bool-cases,
  inl, inr,
}
use sdkwork_web_framework.Base.Text.{Str}
use sdkwork_web_framework.Base.Dict
use sdkwork_web_framework.Base.Dict.{Dict, get-remove}
use sdkwork_web_framework.Stores.Idempotency.{
  MemoryIdempotencyEntry, Entries, cached, Aged, aged, sort_by_created, evict_loop,
  evict_over_budget,
}
use sdkwork_web_framework.Stores.Idempotency.Coverage.{
  cached-remove, Covers, Covers-removed, Covers-missing, Covers-sorted,
}

-- The two budgets.
pub record Fits (max_entries max_bytes : ℕ) (entries : Entries) : Type 0 where
  pub few : length entries ≤ max_entries
  pub small : cached entries ≤ max_bytes

module _ (max_entries max_bytes : ℕ) where
  evict_loop-Fits :
      (oldest : List Aged) (cached_bytes : ℕ) (entries : Entries)
      → Covers oldest entries
      → cached entries ≤ cached_bytes
      → Fits max_entries max_bytes (evict_loop max_entries max_bytes oldest cached_bytes entries)
  unfolding evict_loop
  evict_loop-Fits [] cached_bytes [] c h = record {
    few = omega arith;
    small = unfold cached in omega arith;
  }
  evict_loop-Fits [] cached_bytes (p ∷ entries) c h = elim c.visited.0 [ ]
  evict_loop-Fits (a ∷ oldest) cached_bytes entries c h =
      elim (Bool-cases (leb (length entries) max_entries && leb cached_bytes max_bytes)) [
        | inl done ↦ rw done (record { few = ground arith; small = ground arith })
        | inr over ↦ elim (Bool-cases (is_some (Dict.get a.key entries))) [
          | inl found ↦
              rw (over, found)
                (evict_loop-Fits oldest (cached_bytes - a.bytes) (Dict.remove a.key entries)
                  (Covers-removed a oldest entries c)
                  (omega (arith, cached-remove a.key entries, c.honest.0 found)))
          | inr gone ↦
              rw (over, gone)
                (evict_loop-Fits oldest cached_bytes entries
                  (Covers-missing a oldest entries gone c) h)
        ]
      ]

  -- what is found after the loop was there before, unchanged
  evict_loop-get :
      (oldest : List Aged) (cached_bytes : ℕ) (entries : Entries) (k : Str)
      (e : MemoryIdempotencyEntry)
      → Dict.get k (evict_loop max_entries max_bytes oldest cached_bytes entries) ≡ some e
      → Dict.get k entries ≡ some e
  unfolding evict_loop
  evict_loop-get [] cached_bytes entries k e h = h
  evict_loop-get (a ∷ oldest) cached_bytes entries k e h =
      elim (Bool-cases (leb (length entries) max_entries && leb cached_bytes max_bytes)) [
        | inl done ↦ rw done at h
        | inr over ↦ elim (Bool-cases (is_some (Dict.get a.key entries))) [
          | inl found ↦
              let kept =
                evict_loop-get oldest (cached_bytes - a.bytes) (Dict.remove a.key entries) k e
                  (rw (over, found) at h) in
              ground (arith, kept, get-remove a.key k entries)
          | inr gone ↦ evict_loop-get oldest cached_bytes entries k e (rw (over, gone) at h)
        ]
      ]

-- Whatever the store holds, after an eviction it keeps at most the given number of entries and at
-- most the given number of cached bytes.
pub evict_over_budget-Fits :
    (max_entries max_bytes : ℕ) (entries : Entries)
    → Fits max_entries max_bytes (evict_over_budget max_entries max_bytes entries)
unfolding evict_over_budget
evict_over_budget-Fits max_entries max_bytes entries =
    elim (Bool-cases (ltb max_entries (length entries) || ltb max_bytes (cached entries))) [
      | inl over ↦ rw over (
          evict_loop-Fits max_entries max_bytes (sort_by_created (aged entries)) (cached entries)
            entries (Covers-sorted entries) (omega arith))
      | inr within ↦ rw within (record { few = ground arith; small = ground arith })
    ]

-- An eviction changes no entry: what it leaves under a key was there before.
pub evict_over_budget-get :
    (max_entries max_bytes : ℕ) (entries : Entries) (k : Str) (e : MemoryIdempotencyEntry)
    → Dict.get k (evict_over_budget max_entries max_bytes entries) ≡ some e
    → Dict.get k entries ≡ some e
unfolding evict_over_budget
evict_over_budget-get max_entries max_bytes entries k e h =
    elim (Bool-cases (ltb max_entries (length entries) || ltb max_bytes (cached entries))) [
      | inl over ↦
          evict_loop-get max_entries max_bytes (sort_by_created (aged entries)) (cached entries)
            entries k e (rw over at h)
      | inr within ↦ rw within at h
    ]

-- A store within its budgets is left alone.
pub evict_over_budget_of_Fits :
    (max_entries max_bytes : ℕ) (entries : Entries)
    → Fits max_entries max_bytes entries
    → evict_over_budget max_entries max_bytes entries ≡ entries
unfolding evict_over_budget
evict_over_budget_of_Fits max_entries max_bytes entries f = ground (arith, f.few, f.small)
