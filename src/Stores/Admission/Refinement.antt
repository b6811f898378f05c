-- ===== src/Stores/Admission/Refinement.antt =====
-- The admission store implements a count for each key.
use sdkwork_web_framework.Base.{
  ℕ, ◌+◌, ◌-◌, Bool, true, false, List, [], ◌∷◌, if◌then◌else◌, leb, ◌==◌, is_ok, ◌≡◌, refl, arith,
  Bool-cases, ==_iff, inl, inr, ok,
}
use sdkwork_web_framework.Base.Text.{Str, str_eq}
use sdkwork_web_framework.Base.Text.Laws.{str_eq_iff}
use sdkwork_web_framework.Stores.Admission.InFlight.{
  try_acquire-counts, try_acquire-refused, count_of-release,
}
use sdkwork_web_framework.Stores.Admission.{ActiveCounts, count_of, try_acquire, release}

-- The specification: how many leases each key has, and the two operations on it.
abbrev pub Leases : Type 0
Leases = Str → ℕ

unfoldable pub set_lease : Str → ℕ → Leases → Leases
set_lease key n leases other = if str_eq key other then n else leases other

-- a limit of 0 admits without a lease; otherwise there is room, or the call is refused
unfoldable pub acquire_lease : Str → ℕ → Leases → Leases × Bool
unfolding set_lease
acquire_lease key limit leases =
    if limit == 0
    then (leases, true)
    else if leb limit (leases key)
    then (leases, false)
    else (set_lease key (leases key + 1) leases, true)

unfoldable pub release_lease : Str → Leases → Leases
unfolding set_lease
release_lease key leases = set_lease key (leases key - 1) leases

pub data Operation : Type 0 where
  acquire : Str → ℕ → Operation
  give_back : Str → Operation

-- what the two answer to a sequence of operations: the final state, and which acquisitions passed
unfoldable pub run_spec : List Operation → Leases → Leases × List Bool
unfolding acquire_lease release_lease
run_spec [] leases = (leases, [])
run_spec (acquire key limit ∷ rest) leases =
    let ran = run_spec rest (acquire_lease key limit leases).0 in
    (ran.0, (acquire_lease key limit leases).1 ∷ ran.1)
run_spec (give_back key ∷ rest) leases = run_spec rest (release_lease key leases)

unfoldable pub run_store : List Operation → ActiveCounts → ActiveCounts × List Bool
run_store [] active = (active, [])
run_store (acquire key limit ∷ rest) active =
    let ran = run_store rest (try_acquire key limit active).0 in
    (ran.0, is_ok (try_acquire key limit active).1 ∷ ran.1)
run_store (give_back key ∷ rest) active = run_store rest (release key active)

-- The store stands for these leases.
abbrev pub Implements : ActiveCounts → Leases → Type 0
Implements active leases = (key : Str) → count_of key active ≡ leases key

-- a limit of 0 changes nothing
try_acquire-unlimited :
    (key : Str) (active : ActiveCounts) → try_acquire key 0 active ≡ (active, ok tt)
unfolding try_acquire
try_acquire-unlimited key active = refl

acquire-answers :
    (key : Str) (limit : ℕ) (active : ActiveCounts) (leases : Leases)
    → count_of key active ≡ leases key
    → is_ok (try_acquire key limit active).1 ≡ (acquire_lease key limit leases).1
unfolding acquire_lease
acquire-answers key limit active leases h = elim (Bool-cases (limit == 0)) [
  | inl unlimited ↦ rw ((==_iff limit 0).0 unlimited, try_acquire-unlimited key active) refl
  | inr limited ↦
      ground
        (arith, try_acquire-counts key key limit active, try_acquire-refused key key limit active)
]

acquire-implements :
    (key j : Str) (limit : ℕ) (active : ActiveCounts) (leases : Leases)
    → count_of key active ≡ leases key
    → count_of j active ≡ leases j
    → count_of j (try_acquire key limit active).0 ≡ (acquire_lease key limit leases).0 j
unfolding acquire_lease set_lease
acquire-implements key j limit active leases h k = elim (Bool-cases (limit == 0)) [
  | inl unlimited ↦ rw ((==_iff limit 0).0 unlimited, try_acquire-unlimited key active) k
  | inr limited ↦ ground (
    arith,
    try_acquire-counts key j limit active,
    try_acquire-refused key j limit active,
    str_eq_iff key j,
  )
]

release-implements :
    (key j : Str) (active : ActiveCounts) (leases : Leases)
    → count_of key active ≡ leases key
    → count_of j active ≡ leases j
    → count_of j (release key active) ≡ release_lease key leases j
unfolding release_lease set_lease
release-implements key j active leases h k =
    ground (arith, count_of-release key j active, str_eq_iff key j)

-- Refinement: over every sequence of acquisitions and releases, the store answers what a count for
-- each key answers, and it stands for those counts in the end: the bookkeeping of the map (entries
-- of 0 that a refusal leaves, entries that a release removes) is never observed.
pub run_store-refines :
    (operations : List Operation) (active : ActiveCounts) (leases : Leases)
    → Implements active leases
    → ((run_store operations active).1 ≡ (run_spec operations leases).1)
      × Implements (run_store operations active).0 (run_spec operations leases).0
unfolding run_store run_spec
run_store-refines [] active leases h = (refl, h)
run_store-refines (acquire key limit ∷ rest) active leases h =
    let (answers, ends) =
      run_store-refines rest (try_acquire key limit active).0 (acquire_lease key limit leases).0
        (λ j. acquire-implements key j limit active leases (h key) (h j)) in
    (rw (answers, acquire-answers key limit active leases (h key)) refl, ends)
run_store-refines (give_back key ∷ rest) active leases h =
    run_store-refines rest (release key active) (release_lease key leases)
      (λ j. release-implements key j active leases (h key) (h j))
