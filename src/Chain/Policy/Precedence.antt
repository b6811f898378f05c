-- ===== src/Chain/Policy/Precedence.antt =====
-- Which layer decides a field of the merged policy.
use sdkwork_web_framework.Base.{true, false, some, List, ◌≡◌, arith, ◌⊎◌, inl, inr}
use sdkwork_web_framework.Base.Text.{Str}
use sdkwork_web_framework.Chain.Policy.{
  StageEnablement, is_listed, is_enabled, ChainPolicy, merge_chain_policies, pick, concurrency_of,
  ip_access_of, stages_of, enabled_only_of, disabled_of,
}

-- A stage that the layer of the API key disables does not run, and one that this layer's list of
-- participating stages leaves out does not run, whatever the other two layers say.
pub merge_chain_policies-disabled :
    (defaults platform per_key : ChainPolicy) (stages : StageEnablement) (names : List Str)
    (name : Str)
    → per_key.stages ≡ some stages
    → ((stages.disabled ≡ some names) × (is_listed name (some names) false ≡ true))
      ⊎ ((stages.enabled_only ≡ some names) × (is_listed name (some names) true ≡ false))
    → is_enabled name (merge_chain_policies defaults platform (some per_key)).stages ≡ false
unfolding merge_chain_policies is_enabled is_listed pick concurrency_of ip_access_of stages_of
    enabled_only_of disabled_of
merge_chain_policies-disabled defaults platform per_key stages names name own (inl (e, listed)) =
    rw (merge_chain_policies, own, e, listed) (ground arith)
merge_chain_policies-disabled defaults platform per_key stages names name own (inr (e, missing)) =
    rw (merge_chain_policies, own, e, missing) (ground arith)
