-- ===== src/Tests/Chains.antt =====
-- The call chain at concrete inputs.
use sdkwork_web_framework.Base.{
  ℕ, ◌+◌, ◌-◌, ◌<◌, zero, suc, Bool, true, false, not, ◌&&◌, Option, none, some, List, [], ◌∷◌, ◌≡◌,
  ◌≢◌, ◌==◌, ◌↔◌, ◌⊎◌, inl, inr, refl, sym, ap, ◌∙◌, arith, All, filter, length, is_empty, Result,
  ok, err, is_ok,
}
use sdkwork_web_framework.Base.Text.{lit, str_eq}
use sdkwork_web_framework.Base.Dict
use sdkwork_web_framework.Errors.{rate_limit_exceeded}
use sdkwork_web_framework.Chain.Policy.{
  ConcurrencyScope, global, ConcurrencyPolicy, limit_for, scope_name, StageEnablement, is_enabled,
  is_listed, ChainPolicy, merge_chain_policies,
}
use sdkwork_web_framework.Chain.Policy.Precedence.{merge_chain_policies-disabled}
use sdkwork_web_framework.Chain.{custom, pass, reject, ChainStage, enabled, chain_before}
use sdkwork_web_framework.Chain.Unwind.{LeavesState}
use sdkwork_web_framework.Chain.IpAccess.{Network, ip_access_stage, ip_access_stage-LeavesState}
use sdkwork_web_framework.Chain.Concurrency.Undone.{HoldsNothing, chain_before-refused}
use sdkwork_web_framework.Chain.Concurrency.{concurrency_stage}
use sdkwork_web_framework.Stores.Admission.{count_of, try_acquire, or_insert}
use sdkwork_web_framework.Chain.Concurrency.{
  ChainScopes, StageState, concurrency_before, concurrency_after, acquire_scopes, scope_key,
  is_limit_error,
}
use sdkwork_web_framework.Chain.Concurrency.Balance.{concurrency_stage-released}

abbrev no_policy : ChainPolicy
no_policy = record { concurrency = none; ip_access = none; stages = none }

abbrev off : StageEnablement
off = record { enabled_only = none; disabled = some (lit "slot" ∷ []) }

abbrev key_policy : ChainPolicy
key_policy = record { concurrency = none; ip_access = none; stages = some off }

merge_chain_policies-disabled_example :
    is_enabled (lit "slot") (merge_chain_policies no_policy no_policy (some key_policy)).stages
    ≡ false
unfolding is_listed str_eq lit
merge_chain_policies-disabled_example =
    merge_chain_policies-disabled no_policy no_policy key_policy off (lit "slot" ∷ []) (lit "slot")
      refl (inl (refl, refl))

-- At most one request in flight on the platform.
abbrev one : ConcurrencyPolicy
one = record { max_inflight = some 1; max_inflight_per_scope = none }

abbrev nobody : ChainScopes
nobody = record { tenant_id = none; organization_id = none; api_key_id = none }

abbrev idle : StageState
idle = record { active = []; leases = none }

abbrev busy : StageState
busy = record { active = (lit "global:concurrent", 1) ∷ []; leases = none }

one_limited : (scope : ConcurrencyScope) (n : ℕ) → limit_for scope one ≡ some n → 0 < n
unfolding limit_for
one_limited scope n e = ground (arith, e)

concurrency_stage-released_example :
    count_of
      (lit "global:concurrent")
      (concurrency_after
        (some one)
        nobody
        (global ∷ [])
        1
        (concurrency_before (some one) nobody (global ∷ []) 1 idle).0).0.active
    ≡ count_of (lit "global:concurrent") idle.active
unfolding concurrency_before limit_for try_acquire sdkwork_web_framework.Base.Dict.get
    sdkwork_web_framework.Base.Dict.insert str_eq lit
concurrency_stage-released_example =
    concurrency_stage-released one nobody (global ∷ []) 1 one_limited idle (lit "global:concurrent")
      refl

busy_refused : (concurrency_before (some one) nobody (global ∷ []) 1 busy).1 ≢ ok pass
unfolding lit str_eq Dict.get Dict.insert concurrency_before acquire_scopes limit_for scope_name
    scope_key try_acquire or_insert count_of rate_limit_exceeded is_limit_error
busy_refused = λ e. cc e

-- addresses that are numbers, and no networks
abbrev numbered : Network
numbered = record {
  Ip = ℕ;
  Net = ℕ;
  to_ipv4_mapped = λ ip. none;
  parse_ip = λ text. none;
  parse_net = λ text. none;
  net_contains = λ net ip. false;
  ip_eq = λ a b. a == b;
}

abbrev address_lists : ChainStage StageState
address_lists = ip_access_stage numbered none (some 7)

-- an application's stage that refuses every request
abbrev refuse_all : ChainStage StageState
refuse_all = record {
  name = lit "refuse";
  stage_order = 300;
  before = λ s. (s, ok (reject (custom 403 [])));
  after = λ s. (s, ok tt);
  on_error = λ e s. (s, ok tt);
}

refuse_all-LeavesState : LeavesState refuse_all
refuse_all-LeavesState = record { before = λ s. refl; after = λ s. refl; on_error = λ e s. refl }

abbrev all_stages : StageEnablement
all_stages = record { enabled_only = none; disabled = none }

abbrev refusing : List (ChainStage StageState)
refusing = address_lists ∷ concurrency_stage (some one) nobody (global ∷ []) 1 ∷ refuse_all ∷ []

refusing-refuses : is_ok (chain_before refusing all_stages idle).1 ≡ false
unfolding chain_before enabled is_enabled ip_access_stage concurrency_stage limit_for try_acquire
    Dict.get Dict.insert str_eq lit
refusing-refuses = refl

chain_before-refused_example : HoldsNothing idle.active (chain_before refusing all_stages idle).0
chain_before-refused_example =
    chain_before-refused one nobody (global ∷ []) 1 one_limited (address_lists ∷ [])
      (refuse_all ∷ []) all_stages idle (ip_access_stage-LeavesState numbered none (some 7), tt)
      (refuse_all-LeavesState, tt) refl refusing-refuses
