-- ===== src/Stores/RateLimit/Window.antt =====
-- How many requests a window lets through.
use sdkwork_web_framework.Base.{
  ℕ, suc, ◌+◌, ◌-◌, ◌*◌, ◌≤◌, ◌<◌, true, false, none, some, List, [], ◌∷◌, ◌≡◌, ◌≢◌, ap, ◌∙◌, arith,
  if◌then◌else◌, leb, All, is_ok, Bool-cases, Option-cases, inl, inr,
}
use sdkwork_web_framework.Base.Lists.Laws.{All-map}
use sdkwork_web_framework.Base.Text.{Str}
use sdkwork_web_framework.Base.Text.Laws.{str_eq_iff, str_eq_refl}
use sdkwork_web_framework.Base.Dict
use sdkwork_web_framework.Base.Dict.{Dict, get-insert}
use sdkwork_web_framework.Stores.RateLimit.{
  MemoryRateLimitBucket, bucket_of, roll, check_and_record,
}

-- What a check does to a bucket: it counts the request if there is room.
step : ℕ → ℕ → ℕ → MemoryRateLimitBucket → MemoryRateLimitBucket
step max_requests window now b =
    let r = roll now window b in
    if leb max_requests r.count then r else record r { count = r.count + 1 }

-- A check of one key leaves every other key's bucket as it was.
pub check_and_record-other :
    (key j : Str) (max_requests window now : ℕ) (buckets : Dict MemoryRateLimitBucket)
    → key ≢ j
    → Dict.get j (check_and_record key max_requests window now buckets).0 ≡ Dict.get j buckets
unfolding check_and_record
check_and_record-other key j max_requests window now buckets ne =
    let r = roll now window (bucket_of key now buckets) in
    ground (
      arith,
      str_eq_iff key j,
      get-insert key j r buckets,
      get-insert key j (record r { count = r.count + 1 }) buckets,
    )

-- Some requests of one key, at the given instants: the store after them, and how many passed.
pub run : Str → ℕ → ℕ → List ℕ → Dict MemoryRateLimitBucket → Dict MemoryRateLimitBucket × ℕ
run key max_requests window [] buckets = (buckets, 0)
run key max_requests window (now ∷ times) buckets =
    let checked = check_and_record key max_requests window now buckets in
    let rest = run key max_requests window times checked.0 in
    (rest.0, if is_ok checked.1 then suc rest.1 else rest.1)

get-check :
    (key : Str) (max_requests window now : ℕ) (buckets : Dict MemoryRateLimitBucket)
    → Dict.get key (check_and_record key max_requests window now buckets).0
      ≡ some (step max_requests window now (bucket_of key now buckets))
unfolding check_and_record step
get-check key max_requests window now buckets =
    let r = roll now window (bucket_of key now buckets) in
    ground (
      arith,
      str_eq_refl key,
      get-insert key key r buckets,
      get-insert key key (record r { count = r.count + 1 }) buckets,
    )

passes :
    (key : Str) (max_requests window now : ℕ) (buckets : Dict MemoryRateLimitBucket)
    → is_ok (check_and_record key max_requests window now buckets).1 ≡ (
        if leb max_requests (roll now window (bucket_of key now buckets)).count
        then false
        else true)
unfolding check_and_record
passes key max_requests window now buckets = ground arith

bucket_of-some :
    (key : Str) (now : ℕ) (buckets : Dict MemoryRateLimitBucket) (b : MemoryRateLimitBucket)
    → Dict.get key buckets ≡ some b
    → bucket_of key now buckets ≡ b
unfolding bucket_of
bucket_of-some key now buckets b e = ground arith

-- one request, then the rest from the bucket that it leaves
run-step :
    (key : Str) (m window t : ℕ) (times : List ℕ) (buckets : Dict MemoryRateLimitBucket)
    → (run key m window (t ∷ times) buckets).1 ≡ (
        if leb m (roll t window (bucket_of key t buckets)).count
        then (run key m window times (check_and_record key m window t buckets).0).1
        else suc (run key m window times (check_and_record key m window t buckets).0).1)
unfolding run
run-step key m window t times buckets = ground (arith, passes key m window t buckets)

step-window_start :
    (m window t : ℕ) (b : MemoryRateLimitBucket)
    → (step m window t b).window_start ≡ (roll t window b).window_start
unfolding step
step-window_start m window t b = ground arith

step-count :
    (m window t : ℕ) (b : MemoryRateLimitBucket)
    → (step m window t b).count ≡ (
        if leb m (roll t window b).count
        then (roll t window b).count
        else (roll t window b).count + 1)
unfolding step
step-count m window t b = ground arith

module _ (key : Str) (m window : ℕ) (pos : 0 < window) where
  -- One request whose bucket is `r` once it has rolled, then the rest within its window.
  first_then :
      (t : ℕ) (times : List ℕ) (buckets : Dict MemoryRateLimitBucket) (r : MemoryRateLimitBucket)
      (k : ℕ)
      → roll t window (bucket_of key t buckets) ≡ r
      → (run key m window times (check_and_record key m window t buckets).0).1
        ≤ (m - (step m window t (bucket_of key t buckets)).count) + k
      → (run key m window (t ∷ times) buckets).1 ≤ (m - r.count) + k
  first_then t times buckets r k e rest = ground (
    arith,
    run-step key m window t times buckets,
    step-count m window t (bucket_of key t buckets),
    ap (λ (x : MemoryRateLimitBucket). x.count) e,
  )

  -- While the window of the bucket lasts, what passes fits in what it has left.
  run-in_window :
      (times : List ℕ) (buckets : Dict MemoryRateLimitBucket) (b : MemoryRateLimitBucket)
      → Dict.get key buckets ≡ some b
      → All (λ t. t < b.window_start + window) times
      → (run key m window times buckets).1 ≤ m - b.count
  run-in_window [] buckets b e h = unfold run in omega arith
  run-in_window (t ∷ times) buckets b e h =
      let found = bucket_of-some key t buckets b e in
      let kept : roll t window b ≡ b = unfold roll in ground (arith, pos, h.0) in
      let same : roll t window (bucket_of key t buckets) ≡ b = ap (roll t window) found ∙ kept in
      let begun =
        step-window_start m window t (bucket_of key t buckets)
        ∙ ap (λ (x : MemoryRateLimitBucket). x.window_start) same in
      let rest =
        run-in_window times (check_and_record key m window t buckets).0
          (step m window t (bucket_of key t buckets)) (get-check key m window t buckets)
          (rw begun h.1) in
      omega (arith, first_then t times buckets b 0 same (omega (arith, rest)))

  -- The same from the first request of a window on.
  run-from_start :
      (t : ℕ) (times : List ℕ) (buckets : Dict MemoryRateLimitBucket)
      → roll t window (bucket_of key t buckets) ≡ record { count = 0; window_start = t }
      → All (λ x. x < t + window) times
      → (run key m window (t ∷ times) buckets).1 ≤ m
  run-from_start t times buckets e h =
      let begun =
        step-window_start m window t (bucket_of key t buckets)
        ∙ ap (λ (x : MemoryRateLimitBucket). x.window_start) e in
      let rest =
        run-in_window times (check_and_record key m window t buckets).0
          (step m window t (bucket_of key t buckets)) (get-check key m window t buckets)
          (rw begun h) in
      omega (
        arith,
        first_then t times buckets (record { count = 0; window_start = t }) 0 e
            (omega (arith, rest)),
      )

  widen :
      (since t : ℕ) (times : List ℕ)
      → since ≤ t
      → All (λ x. (since ≤ x) × (x < since + window)) times
      → All (λ x. x < t + window) times
  widen since t times le h = All-map times (λ x p. omega (arith, p.1)) h

  -- From the bucket that the key has.
  run-from_bucket :
      (since : ℕ) (times : List ℕ) (buckets : Dict MemoryRateLimitBucket)
      (b : MemoryRateLimitBucket)
      → Dict.get key buckets ≡ some b
      → All (λ t. (since ≤ t) × (t < since + window)) times
      → (run key m window times buckets).1 ≤ (m - b.count) + m
  run-from_bucket since [] buckets b e h = unfold run in omega arith
  run-from_bucket since (t ∷ times) buckets b e h =
      let found = bucket_of-some key t buckets b e in
      elim (Bool-cases (leb window (t - b.window_start))) [
        | inl passed ↦
            let rolled : roll t window (bucket_of key t buckets)
                ≡ record { count = 0; window_start = t } =
              ap (roll t window) found ∙ (unfold roll in ground arith) in
            omega (arith, run-from_start t times buckets rolled (widen since t times h.0.0 h.1))
        | inr lasts ↦
            let same : roll t window (bucket_of key t buckets) ≡ b =
              ap (roll t window) found ∙ (unfold roll in ground arith) in
            first_then t times buckets b m same (
              run-from_bucket since times (check_and_record key m window t buckets).0
                (step m window t (bucket_of key t buckets)) (get-check key m window t buckets) h.1)
      ]

-- Whatever the state of the store, the requests of one key whose instants lie within one window's
-- length of each other pass at most twice the limit.
pub run-le-twice :
    (key : Str) (m window since : ℕ) (times : List ℕ) (buckets : Dict MemoryRateLimitBucket)
    → 0 < window
    → All (λ t. (since ≤ t) × (t < since + window)) times
    → (run key m window times buckets).1 ≤ 2 * m
run-le-twice key m window since [] buckets pos h = unfold run in omega arith
run-le-twice key m window since (t ∷ times) buckets pos h =
    elim (Option-cases (Dict.get key buckets)) [
      | inl fresh ↦ omega (
        arith,
        run-from_start key m window pos t times buckets (unfold roll bucket_of in ground arith)
            (widen key m window pos since t times h.0.0 h.1),
      )
      | inr (b, e) ↦ omega (arith, run-from_bucket key m window pos since (t ∷ times) buckets b e h)
    ]

-- From a key that has no bucket, the requests of one window pass at most the limit.
pub run-le-limit :
    (key : Str) (m window t : ℕ) (times : List ℕ) (buckets : Dict MemoryRateLimitBucket)
    → 0 < window
    → Dict.get key buckets ≡ none
    → All (λ x. x < t + window) times
    → (run key m window (t ∷ times) buckets).1 ≤ m
run-le-limit key m window t times buckets pos e h =
    run-from_start key m window pos t times buckets (unfold roll bucket_of in ground arith) h
