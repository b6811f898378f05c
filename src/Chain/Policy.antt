-- ===== src/Chain/Policy.antt =====
-- crates/sdkwork-web-chain/src/policy.rs: the layers of a chain's policy and their merge. The
-- conversion to JSON is not modelled.
pub mod Precedence
use sdkwork_web_framework.Base.{
  ℕ, Bool, true, false, not, ◌&&◌, ◌||◌, Option, none, some, List, [], ◌∷◌, if◌then◌else◌, any,
  or_else, is_some, is_empty,
}
use sdkwork_web_framework.Base.Text.{Str, lit, str_eq}
use sdkwork_web_framework.Base.Dict
use sdkwork_web_framework.Base.Dict.{Dict}

pub data ConcurrencyScope : Type 0 where
  global api_key tenant : ConcurrencyScope

unfoldable pub scope_name : ConcurrencyScope → Str
scope_name global = lit "global"
scope_name api_key = lit "apiKey"
scope_name tenant = lit "tenant"

-- Limits are of type u32.
pub record ConcurrencyPolicy : Type 0 where
  pub max_inflight : Option ℕ
  pub max_inflight_per_scope : Option (Dict ℕ)

unfoldable pub limit_for : ConcurrencyScope → ConcurrencyPolicy → Option ℕ
unfolding scope_name
limit_for scope policy =
    or_else
      (elim policy.max_inflight_per_scope [
        | none ↦ none
        | some overrides ↦ Dict.get (scope_name scope) overrides
      ])
      policy.max_inflight

pub data IpAccessMode : Type 0 where
  open_mode allowlist_only : IpAccessMode

pub record IpAccessPolicy : Type 0 where
  pub mode : IpAccessMode
  pub allowlist : List Str
  pub denylist : List Str

-- `IpAccessPolicy::is_restrictive`
unfoldable pub is_ip_restrictive : IpAccessPolicy → Bool
is_ip_restrictive policy = not (is_empty policy.allowlist) || not (is_empty policy.denylist)

pub record StageEnablement : Type 0 where
  pub enabled_only : Option (List Str)
  pub disabled : Option (List Str)

unfoldable pub is_listed : Str → Option (List Str) → Bool → Bool
is_listed name none default = default
is_listed name (some names) default = any (λ candidate. str_eq candidate name) names

unfoldable pub is_enabled : Str → StageEnablement → Bool
unfolding is_listed
is_enabled name stages =
    if not (is_listed name stages.enabled_only true)
    then false
    else if is_listed name stages.disabled false
    then false
    else true

pub record ChainPolicy : Type 0 where
  pub concurrency : Option ConcurrencyPolicy
  pub ip_access : Option IpAccessPolicy
  pub stages : Option StageEnablement

pub record ResolvedChainPolicy : Type 0 where
  pub concurrency : Option ConcurrencyPolicy
  pub ip_access : Option IpAccessPolicy
  pub stages : StageEnablement
  pub origin : Str

-- `ResolvedChainPolicy::from`
unfoldable pub resolved_from : ChainPolicy → ResolvedChainPolicy
resolved_from policy = record {
  concurrency = policy.concurrency;
  ip_access = policy.ip_access;
  stages = elim policy.stages [
    | none ↦ record { enabled_only = none; disabled = none }
    | some stages ↦ stages
  ];
  origin = lit "default";
}

unfoldable pub pick {ℓ} : {T : Type ℓ} → Option T → Option T → Option T → Option T
pick per_key platform defaults = or_else (or_else per_key platform) defaults

-- `ChainPolicy::is_restrictive`
unfoldable pub is_restrictive : ChainPolicy → Bool
is_restrictive policy =
    is_some policy.concurrency || is_some policy.ip_access || is_some policy.stages

-- the fields of a layer, and of its stages, that `and_then` reaches
unfoldable pub concurrency_of : Option ChainPolicy → Option ConcurrencyPolicy
concurrency_of none = none
concurrency_of (some policy) = policy.concurrency

unfoldable pub ip_access_of : Option ChainPolicy → Option IpAccessPolicy
ip_access_of none = none
ip_access_of (some policy) = policy.ip_access

unfoldable pub stages_of : Option ChainPolicy → Option StageEnablement
stages_of none = none
stages_of (some policy) = policy.stages

unfoldable pub enabled_only_of : Option StageEnablement → Option (List Str)
enabled_only_of none = none
enabled_only_of (some stages) = stages.enabled_only

unfoldable pub disabled_of : Option StageEnablement → Option (List Str)
disabled_of none = none
disabled_of (some stages) = stages.disabled

unfoldable pub merge_chain_policies :
    ChainPolicy → ChainPolicy → Option ChainPolicy → ResolvedChainPolicy
unfolding pick is_restrictive concurrency_of ip_access_of stages_of enabled_only_of disabled_of
merge_chain_policies defaults platform per_key = record {
  concurrency = pick (concurrency_of per_key) platform.concurrency defaults.concurrency;
  ip_access = pick (ip_access_of per_key) platform.ip_access defaults.ip_access;
  stages = record {
    enabled_only =
        pick (enabled_only_of (stages_of per_key)) (enabled_only_of platform.stages)
          (enabled_only_of defaults.stages);
    disabled =
        pick (disabled_of (stages_of per_key)) (disabled_of platform.stages)
          (disabled_of defaults.stages);
  };
  origin =
      if is_some per_key
      then lit "api-key"
      else if is_restrictive platform || is_some platform.concurrency || is_some platform.stages
      then lit "global"
      else lit "default";
}
