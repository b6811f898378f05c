-- ===== src/PolicyCache/Keys.antt =====
-- The contexts of cors_policy.rs, rate_limit_policy.rs and tenant_runtime.rs in
-- crates/sdkwork-web-core/src, and the keys under which policy_cache.rs caches their answers.
use sdkwork_web_framework.Base.{Option, none, some, ◌++◌, ◌∷◌, if◌then◌else◌, is_empty}
use sdkwork_web_framework.Base.Text.{Str, lit}
use sdkwork_web_framework.Contract
use sdkwork_web_framework.Contract.{RateLimitTier}
use sdkwork_web_framework.Surface.{
  WebApiSurface, open_api, app_api, backend_api, internal_api, gateway_api, unknown, WebEnvironment,
  dev, test, prod,
}

pub record CorsPolicyContext : Type 0 where
  pub tenant_id : Option Str
  pub environment : WebEnvironment
  pub api_surface : WebApiSurface
  pub origin : Option Str

pub record RateLimitPolicyContext : Type 0 where
  pub tenant_id : Option Str
  pub environment : WebEnvironment
  pub api_surface : WebApiSurface
  pub rate_limit_tier : Option RateLimitTier
  pub operation_id : Option Str

pub record TenantRuntimeProfileContext : Type 0 where
  pub tenant_id : Option Str
  pub environment : WebEnvironment
  pub api_surface : WebApiSurface

-- `tenant_scope`, which the three contexts write alike
unfoldable pub tenant_scope : Option Str → Str
tenant_scope none = lit "0"
tenant_scope (some value) = if is_empty value then lit "0" else value

-- `environment_label`, likewise
unfoldable pub environment_label : WebEnvironment → Str
environment_label prod = lit "prod"
environment_label test = lit "test"
environment_label dev = lit "dev"

-- The derived `Debug` of the surfaces.
unfoldable pub debug_surface : WebApiSurface → Str
debug_surface open_api = lit "OpenApi"
debug_surface app_api = lit "AppApi"
debug_surface backend_api = lit "BackendApi"
debug_surface internal_api = lit "InternalApi"
debug_surface gateway_api = lit "GatewayApi"
debug_surface unknown = lit "Unknown"

unfoldable pub rate_limit_tier_key : Option RateLimitTier → Str
rate_limit_tier_key (some Contract.auth_critical) = lit "auth_critical"
rate_limit_tier_key (some Contract.open_api_default) = lit "open_api_default"
rate_limit_tier_key (some Contract.upload) = lit "upload"
rate_limit_tier_key (some Contract.search_tier) = lit "search"
rate_limit_tier_key (some Contract.bulk) = lit "bulk"
rate_limit_tier_key (some Contract.worker) = lit "worker"
rate_limit_tier_key (some Contract.internal) = lit "internal"
rate_limit_tier_key none = lit "default"

-- `format!("{}|{}|{:?}", ...)`
unfoldable pub cors_key : CorsPolicyContext → Str
unfolding tenant_scope environment_label debug_surface
cors_key ctx =
    tenant_scope ctx.tenant_id
    ++ b'|' ∷ (environment_label ctx.environment ++ b'|' ∷ debug_surface ctx.api_surface)

unfoldable pub rate_limit_key : RateLimitPolicyContext → Str
unfolding tenant_scope environment_label debug_surface rate_limit_tier_key
rate_limit_key ctx =
    tenant_scope ctx.tenant_id
    ++ b'|'
      ∷ (environment_label ctx.environment
          ++ b'|'
            ∷ (rate_limit_tier_key ctx.rate_limit_tier ++ b'|' ∷ debug_surface ctx.api_surface))

unfoldable pub tenant_profile_key : TenantRuntimeProfileContext → Str
unfolding tenant_scope environment_label debug_surface
tenant_profile_key ctx =
    tenant_scope ctx.tenant_id
    ++ b'|' ∷ (environment_label ctx.environment ++ b'|' ∷ debug_surface ctx.api_surface)
