-- ===== src/Stores/Admission/InFlight.antt =====
-- Requests in flight, as a step relation on the store and the leases that its clients hold.
use sdkwork_web_framework.Base.{
  ℕ, suc, ◌+◌, ◌-◌, ◌≤◌, ◌<◌, true, false, List, [], ◌∷◌, ◌++◌, ◌≡◌, refl, ap, arith, if◌then◌else◌,
  unwrap_or, is_ok,
}
use sdkwork_web_framework.Base.Text.{Str, str_eq}
use sdkwork_web_framework.Base.Text.Laws.{str_eq_iff, str_eq_refl}
use sdkwork_web_framework.Base.Dict
use sdkwork_web_framework.Base.Dict.{Dict, get-insert, get-remove}
use sdkwork_web_framework.Stores.Admission.{ActiveCounts, or_insert, count_of, try_acquire, release}

count_of-or_insert :
    (key j : Str) (active : ActiveCounts) → count_of j (or_insert key active) ≡ count_of j active
unfolding count_of or_insert
count_of-or_insert key j active = ground (arith, get-insert key j 0 active, str_eq_iff key j)

count_of-insert :
    (key j : Str) (n : ℕ) (active : ActiveCounts)
    → count_of j (Dict.insert key n active) ≡ (if str_eq key j then n else count_of j active)
unfolding count_of
count_of-insert key j n active = ground (arith, get-insert key j n active)

-- Under a limit, a key is taken exactly while it has fewer requests in flight, and then it has one
-- more; nothing else changes.
pub try_acquire-counts :
    (key j : Str) (limit : ℕ) (active : ActiveCounts)
    → 0 < limit
    → count_of key active < limit
    → (is_ok (try_acquire key limit active).1 ≡ true)
      × (count_of j (try_acquire key limit active).0
          ≡ (if str_eq key j then count_of j active + 1 else count_of j active))
unfolding try_acquire
try_acquire-counts key j limit active pos room = ground (
  arith,
  count_of-or_insert key key active,
  count_of-or_insert key j active,
  count_of-insert key j (count_of key active + 1) (or_insert key active),
  str_eq_iff key j,
)

-- At the limit the key is refused and no count changes.
pub try_acquire-refused :
    (key j : Str) (limit : ℕ) (active : ActiveCounts)
    → 0 < limit
    → limit ≤ count_of key active
    → (is_ok (try_acquire key limit active).1 ≡ false)
      × (count_of j (try_acquire key limit active).0 ≡ count_of j active)
unfolding try_acquire
try_acquire-refused key j limit active pos full =
    ground (arith, count_of-or_insert key key active, count_of-or_insert key j active)

pub count_of-release :
    (key j : Str) (active : ActiveCounts)
    → count_of j (release key active)
      ≡ (if str_eq key j then count_of j active - 1 else count_of j active)
unfolding release count_of
count_of-release key j active = ground (
  arith,
  get-remove key j active,
  str_eq_iff key j,
  get-insert key j (unwrap_or (Dict.get key active) 0 - 1) active,
)

-- How many of the leases are for the key.
abbrev pub held_for : Str → List Str → ℕ
held_for j [] = 0
held_for j (k ∷ leases) = let rest = held_for j leases in if str_eq k j then suc rest else rest

pub held_for-append :
    (j : Str) (xs ys : List Str) → held_for j (xs ++ ys) ≡ held_for j xs + held_for j ys
held_for-append j [] ys = omega arith
held_for-append j (x ∷ xs) ys = ground (arith, held_for-append j xs ys)

-- The store, and the leases that its clients hold.
pub record World : Type 0 where
  pub active : ActiveCounts
  pub leases : List Str

-- Clients acquire under a limit of the key, and give back what they hold, in any order.
pub data Step (limit_of : Str → ℕ) (w : World) : World → Type 0 where
  acquired :
      (key : Str)
      → is_ok (try_acquire key (limit_of key) w.active).1 ≡ true
      → Step limit_of w
          (record { active = (try_acquire key (limit_of key) w.active).0; leases = key ∷ w.leases })
  refused :
      (key : Str)
      → is_ok (try_acquire key (limit_of key) w.active).1 ≡ false
      → Step limit_of w
          (record { active = (try_acquire key (limit_of key) w.active).0; leases = w.leases })
  released :
      (key : Str) (pre post : List Str)
      → w.leases ≡ pre ++ key ∷ post
      → Step limit_of w (record { active = release key w.active; leases = pre ++ post })

pub data Reach (limit_of : Str → ℕ) (w : World) : World → Type 0 where
  start : Reach limit_of w w
  then_step : {u v : World} → Reach limit_of w u → Step limit_of u v → Reach limit_of w v

-- Each key is counted as often as it is leased, and within its limit.
pub record Agrees (limit_of : Str → ℕ) (w : World) : Type 0 where
  pub counted : (j : Str) → count_of j w.active ≡ held_for j w.leases
  pub bounded : (j : Str) → count_of j w.active ≤ limit_of j

-- a lease is for its own key
limit_at : (limit_of : Str → ℕ) (k j : Str) → str_eq k j ≡ true → limit_of k ≡ limit_of j
limit_at limit_of k j h = ap limit_of ((str_eq_iff k j).0 h)

count_at :
    (active : ActiveCounts) (k j : Str) → str_eq k j ≡ true → count_of k active ≡ count_of j active
count_at active k j h = ap (λ (x : Str). count_of x active) ((str_eq_iff k j).0 h)

module _ (limit_of : Str → ℕ) (limited : (k : Str) → 0 < limit_of k) where
  room :
      (key : Str) (active : ActiveCounts)
      → is_ok (try_acquire key (limit_of key) active).1 ≡ true
      → count_of key active < limit_of key
  room key active done =
      ground (arith, limited key, try_acquire-refused key key (limit_of key) active)

  full :
      (key : Str) (active : ActiveCounts)
      → is_ok (try_acquire key (limit_of key) active).1 ≡ false
      → limit_of key ≤ count_of key active
  full key active failed =
      ground (arith, limited key, try_acquire-counts key key (limit_of key) active)

  Step-Agrees : {w u : World} → Agrees limit_of w → Step limit_of w u → Agrees limit_of u
  Step-Agrees {w} g (acquired key done) =
      let counts = λ (j : Str).
        (try_acquire-counts key j (limit_of key) w.active (limited key)
          (room key w.active done)).1 in
      record {
        counted = λ j. ground (arith, counts j, g.counted j);
        bounded = λ j. ground (
          arith,
          counts j,
          g.bounded j,
          room key w.active done,
          limit_at limit_of key j,
          count_at w.active key j,
        );
      }
  Step-Agrees {w} g (refused key failed) =
      let counts = λ (j : Str).
        (try_acquire-refused key j (limit_of key) w.active (limited key)
          (full key w.active failed)).1 in
      record {
        counted = λ j. ground (arith, counts j, g.counted j);
        bounded = λ j. ground (arith, counts j, g.bounded j);
      }
  Step-Agrees {w} g (released key pre post e) = record {
    counted = λ j.
        let split_held : held_for j w.leases ≡ held_for j (pre ++ key ∷ post) = ap (held_for j) e in
        ground (
          arith,
          count_of-release key j w.active,
          g.counted j,
          split_held,
          held_for-append j pre (key ∷ post),
          held_for-append j pre post,
        );
    bounded = λ j. ground (arith, count_of-release key j w.active, g.bounded j);
  }

  Reach-Agrees : {w u : World} → Agrees limit_of w → Reach limit_of w u → Agrees limit_of u
  Reach-Agrees g start = g
  Reach-Agrees g (then_step r st) = Step-Agrees (Reach-Agrees g r) st

-- Whatever order clients acquire and release in, every key has as many requests in flight as the
-- store counts, and never more than its limit, if each key is always acquired under the same
-- positive limit and only held leases are released.
pub in_flight_bounded :
    (limit_of : Str → ℕ) (w u : World)
    → ((k : Str) → 0 < limit_of k)
    → Agrees limit_of w
    → Reach limit_of w u
    → (j : Str) → (count_of j u.active ≡ held_for j u.leases) × (held_for j u.leases ≤ limit_of j)
in_flight_bounded limit_of w u limited g r j =
    let g' = Reach-Agrees limit_of limited g r in
    (g'.counted j, omega (arith, g'.counted j, g'.bounded j))

-- A request that a limit of 0 lets through is not counted, and its release takes a lease that
-- another request holds out of the count.
pub unlimited_release :
    (key : Str) (active : ActiveCounts) (n : ℕ)
    → count_of key active ≡ suc n
    → (is_ok (try_acquire key 0 active).1 ≡ true)
      × (count_of key (release key (try_acquire key 0 active).0) ≡ n)
unfolding try_acquire
unlimited_release key active n h =
    (refl, ground (arith, count_of-release key key active, str_eq_refl key))
