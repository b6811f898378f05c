-- ===== src/Chain/IpAccess.antt =====
-- crates/sdkwork-web-chain/src/ip_access.rs: the stage of allow and deny lists. Addresses and
-- networks belong to the standard library and the crate ipnet: what they answer is a parameter.
use sdkwork_web_framework.Base.{
  Bool, true, false, not, ◌&&◌, Option, none, some, List, [], ◌∷◌, if◌then◌else◌, any, is_empty,
  Result, ok, ◌≡◌, ◌↔◌, ◌⊎◌, refl, arith,
}
use sdkwork_web_framework.Base.Text.{Str, lit, trim, contains}
use sdkwork_web_framework.Errors.{WebFrameworkError}
use sdkwork_web_framework.Chain.Policy.{IpAccessMode, open_mode, allowlist_only, IpAccessPolicy}
use sdkwork_web_framework.Chain.{ChainVerdict, pass, reject, ip_forbidden, ChainStage}
use sdkwork_web_framework.Chain.Unwind.{LeavesState}

-- `IpAddr` and `IpNet`, as far as the stage uses them.
pub record Network : Type 1 where
  pub Ip : Type 0
  pub Net : Type 0
  -- the IPv4 address that an IPv6 address maps, as an address
  pub to_ipv4_mapped : Ip → Option Ip
  pub parse_ip : Str → Option Ip
  pub parse_net : Str → Option Net
  pub net_contains : Net → Ip → Bool
  pub ip_eq : Ip → Ip → Bool

module _ (network : Network) where
  -- an IPv4 address maps none
  unfoldable pub canonical_ip : network.Ip → network.Ip
  canonical_ip ip = elim (network.to_ipv4_mapped ip) [ none ↦ ip | some ipv4 ↦ ipv4 ]

  unfoldable pub ip_matches_entry : network.Ip → Str → Bool
  unfolding canonical_ip
  ip_matches_entry address text =
      let ip = canonical_ip address in
      let entry = trim text in
      if is_empty entry
      then false
      else if contains (b'/' ∷ []) entry
      then elim (network.parse_net entry) [ none ↦ false | some net ↦ network.net_contains net ip ]
      else elim (network.parse_ip entry) [
        | none ↦ false
        | some candidate ↦ network.ip_eq (canonical_ip candidate) ip
      ]

  -- `is_some_and` over a list of entries
  unfoldable pub is_matched : Option network.Ip → List Str → Bool
  unfolding ip_matches_entry
  is_matched none entries = false
  is_matched (some ip) entries = any (λ entry. ip_matches_entry ip entry) entries

  unfoldable pub is_allowlist_only : IpAccessMode → Bool
  is_allowlist_only open_mode = false
  is_allowlist_only allowlist_only = true

  -- `IpAccessStage::evaluate`
  unfoldable pub evaluate : Option network.Ip → IpAccessPolicy → ChainVerdict
  unfolding is_matched
  evaluate ip policy =
      if is_matched ip policy.denylist
      then reject (ip_forbidden (lit "client IP is denied by the call chain access policy"))
      else if is_allowlist_only policy.mode && not (is_empty policy.allowlist)
      then if not (is_matched ip policy.allowlist)
        then reject (ip_forbidden (lit "client IP is not allowed by the call chain access policy"))
        else pass
      else pass

  -- `before` of the stage, for the policy of the request and the extracted address
  unfoldable pub ip_access_before :
      Option IpAccessPolicy → Option network.Ip → Result ChainVerdict WebFrameworkError
  unfolding evaluate
  ip_access_before none ip = ok pass
  ip_access_before (some policy) ip = ok (evaluate ip policy)

  -- `IpAccessStage`, for the policy of the request and the extracted address; `after` and `on_error`
  -- are the trait's defaults, and no hook changes the context.
  unfoldable pub ip_access_stage :
      {S : Type 0} → Option IpAccessPolicy → Option network.Ip → ChainStage S
  unfolding ip_access_before
  ip_access_stage policy ip = record {
    name = lit "ip_access";
    stage_order = 100;
    before = λ s. (s, ip_access_before policy ip);
    after = λ s. (s, ok tt);
    on_error = λ e s. (s, ok tt);
  }

-- the stage of the address lists leaves the state as it is
pub ip_access_stage-LeavesState :
    {S : Type 0} (network : Network) (policy : Option IpAccessPolicy) (ip : Option network.Ip)
    → LeavesState (ip_access_stage network {S = S} policy ip)
unfolding ip_access_stage
ip_access_stage-LeavesState network policy ip = record {
  before = λ s. refl;
  after = λ s. refl;
  on_error = λ e s. refl;
}

-- An address is let through exactly when no entry of the denylist matches it and, where the mode
-- gates on an allowlist that is not empty, an entry of the allowlist does; an absent address
-- matches no entry. So a denied address is refused even where it is also allowed.
pub evaluate-pass_iff :
    (network : Network) (ip : Option network.Ip) (policy : IpAccessPolicy)
    → (evaluate network ip policy ≡ pass) ↔ (
        (is_matched network ip policy.denylist ≡ false)
        × ((is_allowlist_only network policy.mode && not (is_empty policy.allowlist) ≡ false)
            ⊎ (is_matched network ip policy.allowlist ≡ true)))
unfolding evaluate
evaluate-pass_iff network ip policy = ground arith
