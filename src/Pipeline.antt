-- ===== src/Pipeline.antt =====
-- crates/sdkwork-web-core/src/api_chain.rs: the stages of a call, their standard order, and the two
-- loops that run a chain of interceptors. An interceptor is a record of its hooks over the state of
-- the call and what else the hooks change: `X` stands for the request with the stores, `Y` for the
-- response with the stores. Metrics are not modelled.
pub mod State
pub mod Keys
pub mod Order
pub mod Compatibility
pub mod Resolution
pub mod Isolation
pub mod Limits
pub mod Idempotency
use State.{WebCallState}
use sdkwork_web_framework.Base.{
  ℕ, Bool, true, false, Option, none, some, List, [], ◌∷◌, ◌++◌, reverse, map, if◌then◌else◌,
  Result, ok, err,
}
use sdkwork_web_framework.Base.Text.{Str, lit}
use sdkwork_web_framework.Base.Text.Ops.{replace_char}
use sdkwork_web_framework.Contract.{auth_profile_label}
use sdkwork_web_framework.Errors.{WebFrameworkError, with_auth_diagnostics}

pub data WebCallStage : Type 0 where
  request_identity surface_classification cors method_guard header_security : WebCallStage
  cross_site_request sql_injection_guard request_size_limit rate_limit : WebCallStage
  idempotency request_context_resolution authentication authorization : WebCallStage
  tenant_isolation context_injection logging audit response_identity : WebCallStage

-- `STANDARD_STAGE_ORDER`
unfoldable pub standard_stage_order : List WebCallStage
standard_stage_order =
    request_identity ∷ surface_classification ∷ cors ∷ method_guard ∷ cross_site_request
    ∷ sql_injection_guard ∷ request_size_limit ∷ rate_limit ∷ idempotency
    ∷ request_context_resolution ∷ authentication ∷ authorization ∷ tenant_isolation
    ∷ context_injection ∷ logging ∷ audit ∷ header_security ∷ response_identity ∷ []

-- `StandardWebCallInterceptor::name_for`; the kinds of interceptors.rs are the stages, by the same
-- names (`stage_for`).
unfoldable pub name_for : WebCallStage → Str
name_for request_identity = lit "request_identity"
name_for surface_classification = lit "surface_classification"
name_for cors = lit "cors"
name_for method_guard = lit "method_guard"
name_for header_security = lit "header_security"
name_for cross_site_request = lit "cross_site_request"
name_for sql_injection_guard = lit "sql_injection_guard"
name_for request_size_limit = lit "request_size_limit"
name_for rate_limit = lit "rate_limit"
name_for idempotency = lit "idempotency"
name_for request_context_resolution = lit "request_context_resolution"
name_for authentication = lit "authentication"
name_for authorization = lit "authorization"
name_for tenant_isolation = lit "tenant_isolation"
name_for context_injection = lit "context_injection"
name_for logging = lit "logging"
name_for audit = lit "audit"
name_for response_identity = lit "response_identity"

-- The trait `WebCallInterceptor`.
pub record WebCallInterceptor (X Y : Type 0) : Type 0 where
  pub name : Str
  pub stage : WebCallStage
  pub before : WebCallState → X → (WebCallState × X) × Result (Unit {0}) WebFrameworkError
  pub after : WebCallState → Y → Y × Result (Unit {0}) WebFrameworkError

module _ {X Y : Type 0} where
  -- `WebCallInterceptorChain::standard`, for the interceptor of each kind
  unfoldable pub standard : (WebCallStage → WebCallInterceptor X Y) → List (WebCallInterceptor X Y)
  standard interceptor =
      interceptor request_identity
      ∷ interceptor surface_classification
      ∷ interceptor cors
      ∷ interceptor method_guard
      ∷ interceptor cross_site_request
      ∷ interceptor sql_injection_guard
      ∷ interceptor request_size_limit
      ∷ interceptor rate_limit
      ∷ interceptor idempotency
      ∷ interceptor request_context_resolution
      ∷ interceptor authentication
      ∷ interceptor authorization
      ∷ interceptor tenant_isolation
      ∷ interceptor context_injection
      ∷ interceptor logging
      ∷ interceptor audit
      ∷ interceptor header_security
      ∷ interceptor response_identity
      ∷ []

  unfoldable pub stage_order : List (WebCallInterceptor X Y) → List WebCallStage
  stage_order interceptors = map (λ interceptor. interceptor.stage) interceptors

  -- what an error of a stage becomes: the profile of the route and the name of the stage are added
  unfoldable pub diagnosed :
      WebCallInterceptor X Y → WebCallState → WebFrameworkError → WebFrameworkError
  diagnosed interceptor state error =
      with_auth_diagnostics error
        (elim state.route_auth [ none ↦ none | some auth ↦ some (auth_profile_label auth) ])
        (replace_char b'_' b'-' interceptor.name)

  -- `WebCallInterceptorChain::before`
  unfoldable pub run_before :
      List (WebCallInterceptor X Y)
      → WebCallState
      → X
      → (WebCallState × X) × Result (Unit {0}) WebFrameworkError
  unfolding diagnosed
  run_before [] state x = ((state, x), ok tt)
  run_before (interceptor ∷ interceptors) state x =
      let ran = interceptor.before state x in
      elim ran.1 [
        | ok u ↦ run_before interceptors ran.0.0 ran.0.1
        | err error ↦ (
          (
            record (ran.0.0) { before_failure = some (diagnosed interceptor ran.0.0 error) },
            ran.0.1,
          ),
          err (diagnosed interceptor ran.0.0 error),
        )
      ]

  -- the loop of `WebCallInterceptorChain::after`, over the chain in reverse; an error ends it
  unfoldable pub run_after_loop :
      List (WebCallInterceptor X Y) → WebCallState → Y → Y × Result (Unit {0}) WebFrameworkError
  run_after_loop [] state y = (y, ok tt)
  run_after_loop (interceptor ∷ interceptors) state y =
      let ran = interceptor.after state y in
      elim ran.1 [ ok u ↦ run_after_loop interceptors state ran.0 | err error ↦ (ran.0, err error) ]

  unfoldable pub run_after :
      List (WebCallInterceptor X Y) → WebCallState → Y → Y × Result (Unit {0}) WebFrameworkError
  unfolding run_after_loop
  run_after interceptors state y = run_after_loop (reverse interceptors) state y
