-- ===== src/Chain/Unwind.antt =====
-- The loops that undo the stages of a chain, where the stages leave the state as it is.
use sdkwork_web_framework.Base.{
  List, [], ◌∷◌, All, false, is_ok, ◌≡◌, refl, Bool-cases, Result-cases, ◌⊎◌, inl, inr,
}
use sdkwork_web_framework.Errors.{WebFrameworkError}
use sdkwork_web_framework.Chain.Policy.{StageEnablement}
use sdkwork_web_framework.Chain.{
  RejectReason, ChainVerdict, pass, reject, ChainStage, enabled, release_after, run_on_error,
  run_before,
}

pub ChainVerdict-cases :
    (v : ChainVerdict) → (v ≡ pass) ⊎ ((reason : RejectReason) × (v ≡ reject reason))
ChainVerdict-cases pass = inl refl
ChainVerdict-cases (reject reason) = inr (reason, refl)

-- A stage whose hooks leave the state as it is, whatever they answer.
pub record LeavesState {S : Type 0} (stage : ChainStage S) : Type 0 where
  pub before : (s : S) → (stage.before s).0 ≡ s
  pub after : (s : S) → (stage.after s).0 ≡ s
  pub on_error : (e : WebFrameworkError) (s : S) → (stage.on_error e s).0 ≡ s

module _ {S : Type 0} where
  release_after-LeavesState :
      (started : List (ChainStage S)) (s : S)
      → All LeavesState started
      → release_after started s ≡ s
  unfolding release_after
  release_after-LeavesState [] s l = refl
  release_after-LeavesState (stage ∷ started) s l =
      rw (release_after, l.0.after s) (release_after-LeavesState started s l.1)

  run_on_error-LeavesState :
      (started : List (ChainStage S)) (e : WebFrameworkError) (s : S)
      → All LeavesState started
      → run_on_error started e s ≡ s
  unfolding run_on_error
  run_on_error-LeavesState [] e s l = refl
  run_on_error-LeavesState (stage ∷ started) e s l =
      rw (run_on_error, l.0.on_error e s) (run_on_error-LeavesState started e s l.1)

  -- undoing what has started, after a rejection or a failure, gives a good state
  pub record CanUndo (Good : S → Type 0) (started : List (ChainStage S)) (s : S) : Type 0 where
    pub release : Good (release_after started s)
    pub recover : (e : WebFrameworkError) → Good (run_on_error started e s)

  pub CanUndo-LeavesState :
      (Good : S → Type 0) (started : List (ChainStage S)) (s : S)
      → All LeavesState started
      → Good s
      → CanUndo Good started s
  CanUndo-LeavesState Good started s l good = record {
    release = rw (release_after-LeavesState started s l) good;
    recover = λ e. rw (run_on_error-LeavesState started e s l) good;
  }

  -- a stage on top of stages that leave the state as it is
  pub CanUndo-passed :
      (Good : S → Type 0) (stage : ChainStage S) (started : List (ChainStage S)) (s : S)
      → All LeavesState started
      → Good (stage.after s).0
      → ((e : WebFrameworkError) → Good (stage.on_error e s).0)
      → CanUndo Good (stage ∷ started) s
  unfolding release_after run_on_error
  CanUndo-passed Good stage started s l released recovered = record {
    release = rw (release_after-LeavesState started (stage.after s).0 l) released;
    recover = λ e. rw (run_on_error-LeavesState started e (stage.on_error e s).0 l) (recovered e);
  }

  CanUndo-left :
      (Good : S → Type 0) (stage : ChainStage S) (started : List (ChainStage S)) (s : S)
      → LeavesState stage
      → CanUndo Good started s
      → CanUndo Good (stage ∷ started) s
  unfolding release_after run_on_error
  CanUndo-left Good stage started s l u = record {
    release = rw (l.after s) u.release;
    recover = λ e. rw (l.on_error e s) (u.recover e);
  }

  -- a run of stages that leave the state as it is, after others that can be undone
  pub run_before-refused :
      (Good : S → Type 0) (enablement : StageEnablement) (stages started : List (ChainStage S))
      (s : S)
      → All LeavesState stages
      → CanUndo Good started s
      → is_ok (run_before enablement stages started s).1 ≡ false
      → Good (run_before enablement stages started s).0
  unfolding run_before
  run_before-refused Good enablement [] started s l u h = cc h
  run_before-refused Good enablement (stage ∷ stages) started s l u h =
      elim (Bool-cases (enabled enablement stage)) [
        | inr off ↦
            rw (run_before, off)
              (run_before-refused Good enablement stages started s l.1 u
                (rw (run_before, off) at h))
        | inl on ↦ elim (Result-cases (stage.before s).1) [
          | inl (verdict, e) ↦ elim (ChainVerdict-cases verdict) [
            | inl passed ↦
                let e' = rw passed at e in
                rw (run_before, on, e', l.0.before s)
                  (run_before-refused Good enablement stages (stage ∷ started) s l.1
                    (CanUndo-left Good stage started s l.0 u)
                    (rw (run_before, on, e', l.0.before s) at h))
            | inr (reason, refused) ↦
                let e' = rw refused at e in rw (run_before, on, e', l.0.before s) u.release
          ]
          | inr (error, e) ↦ rw (run_before, on, e, l.0.before s) (u.recover error)
        ]
      ]
