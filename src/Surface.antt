-- ===== src/Surface.antt =====
-- crates/sdkwork-web-core/src/surface.rs, constants.rs and the profile of request_context.rs:
-- which API surface a request path belongs to.
pub mod Laws
use sdkwork_web_framework.Base.{
  Bool, true, false, ◌||◌, List, [], ◌∷◌, ◌++◌, if◌then◌else◌, is_empty, any,
}
use sdkwork_web_framework.Base.Text.{
  Str, lit, str_eq, trim, trim_matches, is_slash, starts_with, trim_start, trim_end, is_whitespace,
}

pub data WebApiSurface : Type 0 where
  open_api app_api backend_api internal_api gateway_api unknown : WebApiSurface

pub data WebEnvironment : Type 0 where
  dev test prod : WebEnvironment

pub record WebRequestContextProfile : Type 0 where
  pub app_api_prefix : Str
  pub backend_api_prefix : Str
  pub open_api_prefixes : List Str
  pub public_path_prefixes : List Str
  pub gateway_api_prefixes : List Str
  pub external_protocol_prefixes : List Str
  pub environment : WebEnvironment

-- constants.rs
unfoldable pub internal_api_prefix : Str
unfolding lit
internal_api_prefix = lit "/internal/v3/api"

-- `WebRequestContextProfile::default`
unfoldable pub default_profile : WebRequestContextProfile
unfolding lit
default_profile = record {
  app_api_prefix = lit "/app/v3/api";
  backend_api_prefix = lit "/backend/v3/api";
  open_api_prefixes = lit "/open/v3/api" ∷ [];
  public_path_prefixes = lit "/healthz" ∷ lit "/readyz" ∷ lit "/livez" ∷ lit "/metrics" ∷ [];
  gateway_api_prefixes = lit "/v1" ∷ [];
  external_protocol_prefixes = [];
  environment = dev;
}

-- The same function stands in surface.rs and in route_manifest.rs.
unfoldable pub normalize_path : Str → Str
normalize_path path =
    let value = trim path in
    if is_empty value then b'/' ∷ [] else b'/' ∷ trim_matches is_slash value

-- The path is the prefix, or goes on from it at a slash; `path` comes normalised.
unfoldable pub matches_prefix : Str → Str → Bool
matches_prefix path prefix =
    str_eq path (normalize_path prefix) || starts_with (normalize_path prefix ++ b'/' ∷ []) path

unfoldable pub classify_api_surface : Str → WebRequestContextProfile → WebApiSurface
classify_api_surface path profile =
    let normalized = normalize_path path in
    if matches_prefix normalized profile.app_api_prefix
    then app_api
    else if matches_prefix normalized profile.backend_api_prefix
    then backend_api
    else if matches_prefix normalized internal_api_prefix
    then internal_api
    else if any (matches_prefix normalized) profile.gateway_api_prefixes
    then gateway_api
    else if any (matches_prefix normalized) profile.open_api_prefixes
    then open_api
    else unknown

unfoldable pub is_public_path : Str → WebRequestContextProfile → Bool
is_public_path path profile =
    any (matches_prefix (normalize_path path)) profile.public_path_prefixes

-- `WebRequestContextProfile::is_external_protocol_path`
unfoldable pub is_external_protocol_path : WebRequestContextProfile → Str → Bool
is_external_protocol_path profile path =
    if is_empty profile.external_protocol_prefixes
    then false
    else any (matches_prefix (normalize_path path)) profile.external_protocol_prefixes
