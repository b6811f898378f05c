-- ===== src/Chain/Concurrency/Balance.antt =====
-- What the bulkhead stage counts for a request is what it releases.
use sdkwork_web_framework.Base.{
  ℕ, ◌+◌, ◌-◌, ◌<◌, ◌≤◌, true, false, some, List, [], ◌∷◌, Result, ok, err, is_ok, leb, ◌==◌, ◌≡◌,
  ◌≢◌, refl, ap, arith, Bool-cases, Option-cases, Result-cases, inl, inr,
}
use sdkwork_web_framework.Base.Text.{Str, lit}
use sdkwork_web_framework.Errors.{WebFrameworkError, rate_limit_exceeded}
use sdkwork_web_framework.Stores.Admission.{ActiveCounts, or_insert, count_of, try_acquire, release}
use sdkwork_web_framework.Stores.Admission.InFlight.{
  held_for, try_acquire-counts, try_acquire-refused, count_of-release,
}
use sdkwork_web_framework.Chain.Policy.{ConcurrencyScope, ConcurrencyPolicy, limit_for}
use sdkwork_web_framework.Chain.{ChainVerdict, pass, reject, RejectReason}
use sdkwork_web_framework.Chain.Unwind.{ChainVerdict-cases}
use sdkwork_web_framework.Chain.Concurrency.{
  ChainScopes, scope_key, release_keys, is_limit_error, acquire_scopes, StageState,
  concurrency_before, concurrency_after,
}

count_of-release_keys :
    (keys : List Str) (j : Str) (active : ActiveCounts)
    → count_of j (release_keys keys active) ≡ count_of j active - held_for j keys
unfolding release_keys
count_of-release_keys [] j active = omega arith
count_of-release_keys (key ∷ keys) j active =
    ground (arith, count_of-release_keys keys j (release key active), count_of-release key j active)

-- Each key is counted as before, and once more for each lease.
abbrev Accounts : ActiveCounts → List Str → ActiveCounts → Type 0
Accounts origin acquired active =
    (j : Str) → count_of j active ≡ count_of j origin + held_for j acquired

-- a refusal of the store is always for its limit
try_acquire-kind :
    (key : Str) (limit : ℕ) (active : ActiveCounts) (e : WebFrameworkError)
    → (try_acquire key limit active).1 ≡ err e
    → is_limit_error e.kind ≡ true
unfolding try_acquire is_limit_error rate_limit_exceeded
try_acquire-kind key limit active e h = elim (Bool-cases (limit == 0)) [
  | inl free ↦ cc (rw (try_acquire, free) at h)
  | inr limited ↦ elim (Bool-cases (leb limit (count_of key (or_insert key active)))) [
    | inl full ↦
        let same : rate_limit_exceeded (lit "tenant concurrent request limit exceeded") 1 ≡ e =
          cc (rw (try_acquire, limited, full) at h) in
        rw (← same) refl
    | inr room ↦ cc (rw (try_acquire, limited, room) at h)
  ]
]

module _ (policy : ConcurrencyPolicy) (scopes : ChainScopes) (retry : ℕ)
    (limited : (scope : ConcurrencyScope) (n : ℕ) → limit_for scope policy ≡ some n → 0 < n)
    (origin : ActiveCounts) where
  Accounts-acquired :
      (key : Str) (limit : ℕ) (acquired : List Str) (active : ActiveCounts)
      → 0 < limit
      → is_ok (try_acquire key limit active).1 ≡ true
      → Accounts origin acquired active
      → Accounts origin (key ∷ acquired) (try_acquire key limit active).0
  Accounts-acquired key limit acquired active pos done h j =
      let room : count_of key active < limit =
        ground (arith, try_acquire-refused key key limit active pos) in
      ground (arith, (try_acquire-counts key j limit active pos room).1, h j)

  Accounts-refused :
      (key : Str) (limit : ℕ) (acquired : List Str) (active : ActiveCounts)
      → 0 < limit
      → is_ok (try_acquire key limit active).1 ≡ false
      → Accounts origin acquired active
      → Accounts origin acquired (try_acquire key limit active).0
  Accounts-refused key limit acquired active pos failed h j =
      let full : limit ≤ count_of key active =
        ground (arith, try_acquire-counts key key limit active pos) in
      ground (arith, (try_acquire-refused key j limit active pos full).1, h j)

  -- what holds when the loop ends
  record Settled (r : ActiveCounts × List Str × Result ChainVerdict WebFrameworkError)
      : Type 0 where
    passed : r.2 ≡ ok pass → Accounts origin r.1 r.0
    refused : r.2 ≢ ok pass → Accounts origin [] r.0

  Settled-released :
      (acquired : List Str) (active : ActiveCounts) (reason : RejectReason)
      → Accounts origin acquired active
      → Settled (release_keys acquired active, [], ok (reject reason))
  Settled-released acquired active reason h = record {
    passed = λ e. cc e;
    refused = λ ne j. ground (arith, count_of-release_keys acquired j active, h j);
  }

  acquire_scopes-Settled :
      (enforced : List ConcurrencyScope) (acquired : List Str) (active : ActiveCounts)
      → Accounts origin acquired active
      → Settled (acquire_scopes policy scopes retry enforced acquired active)
  unfolding acquire_scopes
  acquire_scopes-Settled [] acquired active h = record {
    passed = λ e. h;
    refused = λ ne. absurd (ne refl);
  }
  acquire_scopes-Settled (scope ∷ rest) acquired active h =
      elim (Option-cases (limit_for scope policy)) [
        | inl free ↦ rw (acquire_scopes, free) (acquire_scopes-Settled rest acquired active h)
        | inr (limit, at_limit) ↦ elim (Option-cases (scope_key scope scopes)) [
          | inl absent ↦
              rw (acquire_scopes, at_limit, absent) (acquire_scopes-Settled rest acquired active h)
          | inr (key, present) ↦ elim (Result-cases (try_acquire key limit active).1) [
            | inl (u, taken) ↦
                rw (acquire_scopes, at_limit, present, taken)
                  (acquire_scopes-Settled rest (key ∷ acquired) (try_acquire key limit active).0 (
                    Accounts-acquired key limit acquired active (limited scope limit at_limit)
                      (ap is_ok taken) h))
            | inr (e, full) ↦
                rw
                  (
                    acquire_scopes,
                    at_limit,
                    present,
                    full,
                    try_acquire-kind key limit active e full,
                  )
                  (Settled-released acquired (try_acquire key limit active).0 _ (
                    Accounts-refused key limit acquired active (limited scope limit at_limit)
                      (ap is_ok full) h))
          ]
        ]
      ]

concurrency_stage-balance :
    (policy : ConcurrencyPolicy) (scopes : ChainScopes) (enforced : List ConcurrencyScope)
    (retry : ℕ)
    → ((scope : ConcurrencyScope) (n : ℕ) → limit_for scope policy ≡ some n → 0 < n)
    → (s : StageState) (j : Str)
    → let (s', verdict) = concurrency_before (some policy) scopes enforced retry s in
      (verdict ≡ ok pass
        → count_of j (concurrency_after (some policy) scopes enforced retry s').0.active
          ≡ count_of j s.active)
      × (verdict ≢ ok pass → count_of j s'.active ≡ count_of j s.active)
unfolding concurrency_before concurrency_after
concurrency_stage-balance policy scopes enforced retry limited s j =
    let run = acquire_scopes policy scopes retry enforced [] s.active in
    let settled =
      acquire_scopes-Settled policy scopes retry limited s.active enforced [] s.active
        (λ k. omega arith) in
    elim (Result-cases run.2) [
      | inl (verdict, e) ↦ elim (ChainVerdict-cases verdict) [
        | inl passed ↦
            let e' = rw passed at e in
            rw (concurrency_before, e', concurrency_after, concurrency_before, e')
              (
                λ p. omega (arith, count_of-release_keys run.1 j run.0, settled.passed e' j),
                λ ne. absurd (ne refl),
              )
        | inr (reason, refused) ↦
            let e' = rw refused at e in
            rw (concurrency_before, e')
              (λ p. cc p, λ ne. omega (arith, settled.refused (λ p. cc (p, e')) j))
      ]
      | inr (error, e) ↦
          rw (concurrency_before, e)
            (λ p. cc p, λ ne. omega (arith, settled.refused (λ p. cc (p, e)) j))
    ]

-- Under limits that are all positive, a request that the stage lets through is given back in full:
-- once the stage is released, every key is counted as before.
pub concurrency_stage-released :
    (policy : ConcurrencyPolicy) (scopes : ChainScopes) (enforced : List ConcurrencyScope)
    (retry : ℕ)
    → ((scope : ConcurrencyScope) (n : ℕ) → limit_for scope policy ≡ some n → 0 < n)
    → (s : StageState) (j : Str)
    → (concurrency_before (some policy) scopes enforced retry s).1 ≡ ok pass
    → count_of j
        (concurrency_after
          (some policy)
          scopes
          enforced
          retry
          (concurrency_before (some policy) scopes enforced retry s).0).0.active
      ≡ count_of j s.active
concurrency_stage-released policy scopes enforced retry limited s j =
    (concurrency_stage-balance policy scopes enforced retry limited s j).0

-- Under limits that are all positive, a request that the stage does not let through leaves every
-- key counted as before, whichever scope refused it: the slots of the earlier scopes are released.
pub concurrency_stage-refused :
    (policy : ConcurrencyPolicy) (scopes : ChainScopes) (enforced : List ConcurrencyScope)
    (retry : ℕ)
    → ((scope : ConcurrencyScope) (n : ℕ) → limit_for scope policy ≡ some n → 0 < n)
    → (s : StageState) (j : Str)
    → (concurrency_before (some policy) scopes enforced retry s).1 ≢ ok pass
    → count_of j (concurrency_before (some policy) scopes enforced retry s).0.active
      ≡ count_of j s.active
concurrency_stage-refused policy scopes enforced retry limited s j =
    (concurrency_stage-balance policy scopes enforced retry limited s j).1
