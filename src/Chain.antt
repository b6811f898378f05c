-- ===== src/Chain.antt =====
-- crates/sdkwork-web-chain/src/chain.rs: the call chain, with its verdicts and outcomes. A stage is
-- a record of its hooks over a state `S`, which stands for the context of the request together
-- with the stores that the stages share; hooks run one at a time. The chain's resolver comes from
-- the application, so the enablement that it resolves is an argument. Warnings are not modelled.
pub mod Policy
pub mod Order
pub mod Unwind
pub mod Concurrency
pub mod IpAccess
use Policy.{StageEnablement, is_enabled}
use sdkwork_web_framework.Base.{
  ℕ, Bool, true, false, not, ◌&&◌, ◌||◌, Option, none, some, List, [], ◌∷◌, ◌++◌, reverse,
  if◌then◌else◌, ltb, leb, ◌==◌, any, Result, ok, err,
}
use sdkwork_web_framework.Base.Text.{Str, lit, str_eq}
use sdkwork_web_framework.Errors.{WebFrameworkError, internal_server_error}

pub data RejectKind : Type 0 where
  ip_forbidden_kind concurrency_exceeded_kind custom_kind : RejectKind

pub record RejectReason : Type 0 where
  pub kind : RejectKind
  pub message : Str
  pub http_status : ℕ
  pub retry_after_secs : Option ℕ

unfoldable pub ip_forbidden : Str → RejectReason
ip_forbidden message = record {
  kind = ip_forbidden_kind;
  message = message;
  http_status = 403;
  retry_after_secs = none;
}

unfoldable pub concurrency_exceeded : Str → ℕ → RejectReason
concurrency_exceeded message retry_after_secs = record {
  kind = concurrency_exceeded_kind;
  message = message;
  http_status = 429;
  retry_after_secs = some retry_after_secs;
}

unfoldable pub custom : ℕ → Str → RejectReason
custom http_status message = record {
  kind = custom_kind;
  message = message;
  http_status = http_status;
  retry_after_secs = none;
}

pub data ChainVerdict : Type 0 where
  pass : ChainVerdict
  reject : RejectReason → ChainVerdict

pub data ChainOutcome : Type 0 where
  rejected : RejectReason → ChainOutcome
  failed : WebFrameworkError → ChainOutcome

unfoldable pub as_reject_reason : ChainOutcome → Option RejectReason
as_reject_reason (rejected reason) = some reason
as_reject_reason (failed e) = none

-- The trait `ChainStage`; `enabled` is the trait's default, by the name.
pub record ChainStage (S : Type 0) : Type 0 where
  pub name : Str
  pub stage_order : ℕ
  pub before : S → S × Result ChainVerdict WebFrameworkError
  pub after : S → S × Result (Unit {0}) WebFrameworkError
  pub on_error : WebFrameworkError → S → S × Result (Unit {0}) WebFrameworkError

-- `str` compares by the bytes of UTF-8, whose order is that of the code points.
unfoldable pub str_leb : Str → Str → Bool
str_leb [] t = true
str_leb (c ∷ s) [] = false
str_leb (c ∷ s) (d ∷ t) = ltb c d || (c == d && str_leb s t)

module _ {S : Type 0} where
  unfoldable pub enabled : StageEnablement → ChainStage S → Bool
  enabled enablement stage = is_enabled stage.name enablement

  -- `release_after` over the started stages, the latest first; a failing hook is logged only.
  unfoldable pub release_after : List (ChainStage S) → S → S
  release_after [] s = s
  release_after (stage ∷ latest_first) s = release_after latest_first (stage.after s).0

  unfoldable pub run_on_error : List (ChainStage S) → WebFrameworkError → S → S
  run_on_error [] error s = s
  run_on_error (stage ∷ latest_first) error s =
      run_on_error latest_first error (stage.on_error error s).0

  -- the loop of `before`; `started` is the vector of the stages that passed, the latest first
  unfoldable pub run_before :
      StageEnablement
      → List (ChainStage S)
      → List (ChainStage S)
      → S
      → S × Result (Unit {0}) ChainOutcome
  unfolding release_after run_on_error
  run_before enablement [] started s = (s, ok tt)
  run_before enablement (stage ∷ stages) started s = elim (enabled enablement stage) [
    | false ↦ run_before enablement stages started s
    | true ↦ elim (stage.before s).1 [
      | ok verdict ↦ elim verdict [
        | pass ↦ run_before enablement stages (stage ∷ started) (stage.before s).0
        | reject reason ↦ (release_after started (stage.before s).0, err (rejected reason))
      ]
      | err error ↦ (run_on_error started error (stage.before s).0, err (failed error))
    ]
  ]

  -- `CallChain::before`, for the enablement that the resolver answers
  unfoldable pub chain_before :
      List (ChainStage S) → StageEnablement → S → S × Result (Unit {0}) ChainOutcome
  unfolding run_before
  chain_before stages enablement s = run_before enablement stages [] s

  -- the loop of `CallChain::after`, over the stages in reverse; an error ends it
  unfoldable pub run_after :
      StageEnablement → List (ChainStage S) → S → S × Result (Unit {0}) WebFrameworkError
  run_after enablement [] s = (s, ok tt)
  run_after enablement (stage ∷ stages) s =
      let on = enabled enablement stage in
      let rest = run_after enablement stages (if on then (stage.after s).0 else s) in
      if on
      then elim (stage.after s).1 [ ok u ↦ rest | err e ↦ ((stage.after s).0, err e) ]
      else rest

  unfoldable pub chain_after :
      List (ChainStage S) → StageEnablement → S → S × Result (Unit {0}) WebFrameworkError
  unfolding run_after
  chain_after stages enablement s = run_after enablement (reverse stages) s

  unfoldable pub run_all_on_error :
      StageEnablement → List (ChainStage S) → WebFrameworkError → S → S
  run_all_on_error enablement [] error s = s
  run_all_on_error enablement (stage ∷ stages) error s =
      run_all_on_error enablement stages error
        (if not (enabled enablement stage) then s else (stage.on_error error s).0)

  unfoldable pub chain_on_error : List (ChainStage S) → StageEnablement → WebFrameworkError → S → S
  unfolding run_all_on_error
  chain_on_error stages enablement error s = run_all_on_error enablement (reverse stages) error s

  -- the first name that an earlier stage has
  unfoldable pub duplicate_name : List Str → List (ChainStage S) → Option Str
  duplicate_name seen [] = none
  duplicate_name seen (stage ∷ stages) =
      let rest = duplicate_name (stage.name ∷ seen) stages in
      if any (str_eq stage.name) seen then some stage.name else rest

  -- `(a.stage_order(), a.name()) <= (b.stage_order(), b.name())`
  unfoldable pub stage_leb : ChainStage S → ChainStage S → Bool
  unfolding str_leb
  stage_leb a b =
      ltb a.stage_order b.stage_order || (a.stage_order == b.stage_order && str_leb a.name b.name)

  -- `sort_by`, which is stable
  unfoldable pub insert_stage : ChainStage S → List (ChainStage S) → List (ChainStage S)
  insert_stage a [] = a ∷ []
  insert_stage a (b ∷ l) =
      let rest = insert_stage a l in if stage_leb a b then a ∷ b ∷ l else b ∷ rest

  unfoldable pub sort_stages : List (ChainStage S) → List (ChainStage S)
  sort_stages [] = []
  sort_stages (a ∷ l) = insert_stage a (sort_stages l)

  -- `CallChainBuilder::build`; the resolver is what the chain keeps of it.
  unfoldable pub build :
      {R : Type 0}
      → List (ChainStage S)
      → Option R
      → Result (List (ChainStage S) × R) WebFrameworkError
  unfolding duplicate_name sort_stages
  build stages none = err (internal_server_error (lit "call chain requires a policy resolver"))
  build stages (some resolver) = elim (duplicate_name [] stages) [
    | some name ↦ err (internal_server_error (lit "duplicate call chain stage name: " ++ name))
    | none ↦ ok (sort_stages stages, resolver)
  ]
