-- ===== src/Pipeline/Order.antt =====
-- What the loops of the interceptor chain run, and in which order.
use sdkwork_web_framework.Base.{
  true, some, is_some, List, [], ◌∷◌, ◌++◌, ◌≡◌, refl, ap, Result-cases, inl, inr, Result, ok, err,
}
use sdkwork_web_framework.Errors.{WebFrameworkError, with_auth_diagnostics}
use sdkwork_web_framework.Pipeline.State.{WebCallState}
use sdkwork_web_framework.Pipeline.{
  WebCallStage, WebCallInterceptor, standard_stage_order, standard, stage_order, diagnosed,
  run_before,
}

abbrev fails_with : WebFrameworkError → Result (Unit {0}) WebFrameworkError
fails_with e = err e

module _ {X Y : Type 0} where
  -- The standard chain has the stages of `STANDARD_STAGE_ORDER`, in that order, whatever its
  -- interceptors do.
  pub stage_order-standard :
      (interceptor : WebCallStage → WebCallInterceptor X Y)
      → ((kind : WebCallStage) → (interceptor kind).stage ≡ kind)
      → stage_order (standard interceptor) ≡ standard_stage_order
  unfolding stage_order standard standard_stage_order
  stage_order-standard interceptor h = simp h refl

  failed-IsRecorded :
      (i : WebCallInterceptor X Y) (state : WebCallState) (e error : WebFrameworkError)
      → fails_with (diagnosed i state e) ≡ err error
      → (some (diagnosed i state e) ≡ some error)
        × (is_some error.failed_stage ≡ true)
        × (is_some error.reason ≡ true)
  unfolding diagnosed with_auth_diagnostics
  failed-IsRecorded i state e error h =
      let same : diagnosed i state e ≡ error = cc h in
      (ap some same, rw (← same) refl, rw (← same) refl)

  -- The stages before a failing one run in order, the failing one is the last to run, and what
  -- follows it has no effect at all: the call ends with the diagnosed error of that stage, which is
  -- also recorded in the state for the stages that run afterwards.
  pub run_before-first_failure :
      (passed : List (WebCallInterceptor X Y)) (failing : WebCallInterceptor X Y)
      (skipped : List (WebCallInterceptor X Y)) (state : WebCallState) (x : X)
      (error : WebFrameworkError)
      → (run_before passed state x).1 ≡ ok tt
      → (failing.before (run_before passed state x).0.0 (run_before passed state x).0.1).1
        ≡ err error
      → run_before (passed ++ failing ∷ skipped) state x ≡ (
          let reached = (run_before passed state x).0 in
          let failed = (failing.before reached.0 reached.1).0 in
          (
            (
              record (failed.0) { before_failure = some (diagnosed failing failed.0 error) },
              failed.1,
            ),
            err (diagnosed failing failed.0 error),
          ))
  unfolding run_before
  run_before-first_failure [] failing skipped state x error h e = rw (run_before, e) refl
  run_before-first_failure (p ∷ passed) failing skipped state x error h e =
      elim (Result-cases (p.before state x).1) [
        | inl (u, passes) ↦
            rw (run_before, passes)
              (run_before-first_failure passed failing skipped (p.before state x).0.0
                (p.before state x).0.1 error (rw (run_before, passes) at h)
                (rw (run_before, passes) at e))
        | inr (e2, fails) ↦ cc (rw (run_before, fails) at h)
      ]

  -- A chain that fails names the failing stage and a reason in its error, and leaves exactly that
  -- error in the state, where the audit of a failed call reads it.
  pub run_before-records_failure :
      (chain : List (WebCallInterceptor X Y)) (state : WebCallState) (x : X)
      (error : WebFrameworkError)
      → (run_before chain state x).1 ≡ err error
      → ((run_before chain state x).0.0.before_failure ≡ some error)
        × (is_some error.failed_stage ≡ true)
        × (is_some error.reason ≡ true)
  unfolding run_before
  run_before-records_failure [] state x error h = cc h
  run_before-records_failure (i ∷ chain) state x error h =
      elim (Result-cases (i.before state x).1) [
        | inl (u, passes) ↦
            rw (run_before, passes)
              (run_before-records_failure chain (i.before state x).0.0 (i.before state x).0.1 error
                (rw (run_before, passes) at h))
        | inr (e, fails) ↦
            rw (run_before, fails)
              (failed-IsRecorded i (i.before state x).0.0 e error (rw (run_before, fails) at h))
      ]
