-- ===== src/Chain/Concurrency/Undone.antt =====
-- A chain with the bulkhead stage among others, when it refuses a request.
use sdkwork_web_framework.Base.{
  ℕ, ◌<◌, false, none, some, List, [], ◌∷◌, ◌++◌, All, ok, is_ok, ◌≡◌, ◌≢◌, refl, Bool-cases,
  Option-cases, Result-cases, inl, inr,
}
use sdkwork_web_framework.Base.Text.{Str}
use sdkwork_web_framework.Stores.Admission.{ActiveCounts, count_of}
use sdkwork_web_framework.Chain.Policy.{
  ConcurrencyScope, ConcurrencyPolicy, limit_for, StageEnablement,
}
use sdkwork_web_framework.Chain.{pass, ChainStage, enabled, run_before, chain_before}
use sdkwork_web_framework.Chain.Unwind.{
  ChainVerdict-cases, LeavesState, CanUndo-LeavesState, CanUndo-passed, run_before-refused,
}
use sdkwork_web_framework.Chain.Concurrency.{
  ChainScopes, acquire_scopes, StageState, concurrency_before, concurrency_after, concurrency_stage,
}
use sdkwork_web_framework.Chain.Concurrency.Balance.{
  concurrency_stage-released, concurrency_stage-refused,
}

-- No slot is taken or given back, and the request holds no leases.
pub record HoldsNothing (origin : ActiveCounts) (s : StageState) : Type 0 where
  pub counts : (j : Str) → count_of j s.active ≡ count_of j origin
  pub leases : s.leases ≡ none

module _ (policy : ConcurrencyPolicy) (scopes : ChainScopes) (enforced : List ConcurrencyScope)
    (retry : ℕ)
    (limited : (scope : ConcurrencyScope) (n : ℕ) → limit_for scope policy ≡ some n → 0 < n)
    (s : StageState) (idle : s.leases ≡ none) where
  -- the stage refuses a request with what its loop has released, and touches no leases
  concurrency_before-leases :
      (concurrency_before (some policy) scopes enforced retry s).1 ≢ ok pass
      → (concurrency_before (some policy) scopes enforced retry s).0.leases ≡ none
  unfolding concurrency_before
  concurrency_before-leases ne =
      let run = acquire_scopes policy scopes retry enforced [] s.active in
      elim (Result-cases run.2) [
        | inl (verdict, e) ↦ elim (ChainVerdict-cases verdict) [
          | inl passed ↦ let e' = rw passed at e in absurd (ne (rw (concurrency_before, e') refl))
          | inr (reason, refused) ↦ let e' = rw refused at e in rw (concurrency_before, e') idle
        ]
        | inr (error, e) ↦ rw (concurrency_before, e) idle
      ]

  concurrency_after-leases :
      (t : StageState) → (concurrency_after (some policy) scopes enforced retry t).0.leases ≡ none
  unfolding concurrency_after
  concurrency_after-leases t = elim (Option-cases t.leases) [
    | inl absent ↦ rw (concurrency_after, absent) absent
    | inr (keys, held) ↦ rw (concurrency_after, held) refl
  ]

  refused-HoldsNothing :
      (concurrency_before (some policy) scopes enforced retry s).1 ≢ ok pass
      → HoldsNothing s.active (concurrency_before (some policy) scopes enforced retry s).0
  refused-HoldsNothing ne = record {
    counts = λ j. concurrency_stage-refused policy scopes enforced retry limited s j ne;
    leases = concurrency_before-leases ne;
  }

  released-HoldsNothing :
      (concurrency_before (some policy) scopes enforced retry s).1 ≡ ok pass
      → HoldsNothing s.active
          (concurrency_after
            (some policy)
            scopes
            enforced
            retry
            (concurrency_before (some policy) scopes enforced retry s).0).0
  released-HoldsNothing passed = record {
    counts = λ j. concurrency_stage-released policy scopes enforced retry limited s j passed;
    leases = concurrency_after-leases (concurrency_before (some policy) scopes enforced retry s).0;
  }

  -- the bulkhead stage after stages that leave the state as it is, and before others
  concurrency_stage-undone :
      (enablement : StageEnablement) (back started : List (ChainStage StageState))
      → All LeavesState back
      → All LeavesState started
      → let stages = concurrency_stage (some policy) scopes enforced retry ∷ back in
        is_ok (run_before enablement stages started s).1 ≡ false
        → HoldsNothing s.active (run_before enablement stages started s).0
  unfolding run_before concurrency_stage
  concurrency_stage-undone enablement back started lb ls h =
      let Good = HoldsNothing s.active in
      let stage = concurrency_stage (some policy) scopes enforced retry in
      let s' = (concurrency_before (some policy) scopes enforced retry s).0 in
      elim (Bool-cases (enabled enablement stage)) [
        | inr off ↦
            rw (run_before, off)
              (run_before-refused Good enablement back started s lb
                (CanUndo-LeavesState Good started s ls
                  (record { counts = λ j. refl; leases = idle }))
                (rw (run_before, off) at h))
        | inl on ↦ elim (Result-cases (stage.before s).1) [
          | inl (verdict, e) ↦ elim (ChainVerdict-cases verdict) [
            | inl passed ↦
                let e' = rw passed at e in
                rw (run_before, on, e')
                  (run_before-refused Good enablement back (stage ∷ started) s' lb
                    (CanUndo-passed Good stage started s' ls (released-HoldsNothing e')
                      (λ error. released-HoldsNothing e'))
                    (rw (run_before, on, e') at h))
            | inr (reason, refused) ↦
                let e' = rw refused at e in
                rw (run_before, on, e')
                  (CanUndo-LeavesState Good started s' ls
                    (refused-HoldsNothing (λ p. cc (p, e')))).release
          ]
          | inr (error, e) ↦
              rw (run_before, on, e)
                ((CanUndo-LeavesState Good started s' ls
                    (refused-HoldsNothing (λ p. cc (p, e)))).recover
                  error)
        ]
      ]

  front-undone :
      (enablement : StageEnablement) (front back started : List (ChainStage StageState))
      → All LeavesState front
      → All LeavesState back
      → All LeavesState started
      → let stages = front ++ concurrency_stage (some policy) scopes enforced retry ∷ back in
        is_ok (run_before enablement stages started s).1 ≡ false
        → HoldsNothing s.active (run_before enablement stages started s).0
  unfolding run_before
  front-undone enablement [] back started lf lb ls h =
      concurrency_stage-undone enablement back started lb ls h
  front-undone enablement (stage ∷ front) back started lf lb ls h =
      let stages = front ++ concurrency_stage (some policy) scopes enforced retry ∷ back in
      let u =
        CanUndo-LeavesState (HoldsNothing s.active) started s ls
          (record { counts = λ j. refl; leases = idle }) in
      elim (Bool-cases (enabled enablement stage)) [
        | inr off ↦
            rw (run_before, off)
              (front-undone enablement front back started lf.1 lb ls (rw (run_before, off) at h))
        | inl on ↦ elim (Result-cases (stage.before s).1) [
          | inl (verdict, e) ↦ elim (ChainVerdict-cases verdict) [
            | inl passed ↦
                let e' = rw passed at e in
                rw (run_before, on, e', lf.0.before s)
                  (front-undone enablement front back (stage ∷ started) lf.1 lb (lf.0, ls)
                    (rw (run_before, on, e', lf.0.before s) at h))
            | inr (reason, refused) ↦
                let e' = rw refused at e in rw (run_before, on, e', lf.0.before s) u.release
          ]
          | inr (error, e) ↦ rw (run_before, on, e, lf.0.before s) (u.recover error)
        ]
      ]

-- A chain that refuses a request, because a stage rejects it or fails, has taken no slot: where
-- the bulkhead stage, under limits that are all positive, stands among stages whose hooks leave the
-- counts and the leases alone, as those of the address lists do, and the request came without
-- leases, every key is counted as before and the request holds no leases, whichever stage refused.
pub chain_before-refused :
    (policy : ConcurrencyPolicy) (scopes : ChainScopes) (enforced : List ConcurrencyScope)
    (retry : ℕ)
    → ((scope : ConcurrencyScope) (n : ℕ) → limit_for scope policy ≡ some n → 0 < n)
    → (front back : List (ChainStage StageState)) (enablement : StageEnablement) (s : StageState)
    → All LeavesState front
    → All LeavesState back
    → s.leases ≡ none
    → let stages = front ++ concurrency_stage (some policy) scopes enforced retry ∷ back in
      is_ok (chain_before stages enablement s).1 ≡ false
      → HoldsNothing s.active (chain_before stages enablement s).0
unfolding chain_before
chain_before-refused policy scopes enforced retry limited front back enablement s lf lb idle =
    front-undone policy scopes enforced retry limited s idle enablement front back [] lf lb tt
