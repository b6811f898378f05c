-- ===== src/Manifest/Validation.antt =====
-- crates/sdkwork-web-core/src/route_manifest.rs: the checks that a manifest passes at start-up.
use sdkwork_web_framework.Base.{
  not, ◌&&◌, ◌||◌, List, [], ◌∷◌, ◌++◌, if◌then◌else◌, Result, ok, err, ◌>>◌,
}
use sdkwork_web_framework.Base.Text.{Str, lit, contains, to_ascii_lowercase}
use sdkwork_web_framework.Contract.{
  RouteAuth, HttpRoute, auth_eq, is_anonymous, skips_credential_resolution, is_optional_credential,
  requires_access_token_only, is_bootstrap_body_credential_mode, requires_dual_token_headers,
  is_open_api_credential_mode, is_agent_token_credential_mode, is_ingress_token_credential_mode,
}
use sdkwork_web_framework.Contract.Validation.{
  Json, validate_compatibility_contract, validate_log_retention,
}
use sdkwork_web_framework.Surface.{
  WebApiSurface, WebRequestContextProfile, classify_api_surface, matches_prefix, normalize_path,
}
use sdkwork_web_framework.Guards.ContextSelectors.{
  is_canonical_iam_context_resource_path, requires_client_context_selector_guard,
  forbidden_ambient_context_path_markers,
}
use sdkwork_web_framework.Manifest.{HttpRouteManifest, http_method_label}

unfoldable pub route_auth_label : RouteAuth → Str
route_auth_label RouteAuth.public = lit "public"
route_auth_label RouteAuth.bootstrap_body = lit "bootstrapBody"
route_auth_label RouteAuth.credential_entry_bootstrap = lit "credentialEntryBootstrap"
route_auth_label RouteAuth.refresh_token = lit "refresh-token"
route_auth_label RouteAuth.dual_token = lit "dualToken"
route_auth_label RouteAuth.dual_token_or_anonymous = lit "dualTokenOrAnonymous"
route_auth_label RouteAuth.api_key = lit "apiKey"
route_auth_label RouteAuth.ingress_token = lit "ingressToken"
route_auth_label RouteAuth.oauth = lit "oauth"
route_auth_label RouteAuth.open_api_flexible = lit "openApiFlexible"
route_auth_label RouteAuth.open_api_bearer_flexible = lit "openApiBearerFlexible"
route_auth_label RouteAuth.api_key_or_dual_token = lit "apiKeyOrDualToken"
route_auth_label RouteAuth.agent_token = lit "agentToken"
route_auth_label RouteAuth.compatibility = lit "compatibility"

-- `{method} {path}` of the messages
unfoldable pub route_label : HttpRoute → Str
route_label route = http_method_label route.method ++ lit " " ++ route.path

-- The text that `{:?}` prints for a `str`.
module _ (quoted : Str → Str) where
  -- the inner loop, over the prefixes
  unfoldable pub reject_covering_prefixes : HttpRoute → List Str → Result (Unit {0}) Str
  reject_covering_prefixes route [] = ok tt
  reject_covering_prefixes route (prefix ∷ prefixes) =
      let rest = reject_covering_prefixes route prefixes in
      if matches_prefix (normalize_path route.path) prefix
      then err (
          lit "protected manifest route "
          ++ route_label route
          ++ lit " is covered by public_path_prefix "
          ++ quoted prefix)
      else rest

  -- the outer loop, over the routes
  unfoldable pub validate_prefixes_of : List HttpRoute → List Str → Result (Unit {0}) Str
  unfolding reject_covering_prefixes
  validate_prefixes_of [] prefixes = ok tt
  validate_prefixes_of (route ∷ routes) prefixes =
      let rest = validate_prefixes_of routes prefixes in
      if skips_credential_resolution route.auth
      then rest
      else (reject_covering_prefixes route prefixes >> rest)

  unfoldable pub validate_public_path_prefixes :
      HttpRouteManifest → List Str → Result (Unit {0}) Str
  unfolding validate_prefixes_of
  validate_public_path_prefixes manifest prefixes = validate_prefixes_of manifest.routes prefixes

-- the `match surface` of `validate_route_auth_for_surfaces`; `ok` is `continue` or the end of the arm
unfoldable pub check_auth_on_surface : WebApiSurface → HttpRoute → Result (Unit {0}) Str
check_auth_on_surface WebApiSurface.app_api route =
    if is_anonymous route.auth
      || auth_eq route.auth RouteAuth.refresh_token
      || is_optional_credential route.auth
    then ok tt
    else if not (requires_dual_token_headers route.auth)
        && not (requires_access_token_only route.auth)
    then err (
        lit "app-api route "
        ++ route_label route
        ++ lit
            " must declare RouteAuth::Public, RouteAuth::RefreshToken, RouteAuth::DualTokenOrAnonymous, or an Access-Token-bearing auth profile: RouteAuth::DualToken or RouteAuth::CredentialEntryBootstrap (found "
        ++ route_auth_label route.auth
        ++ lit ")")
    else ok tt
check_auth_on_surface WebApiSurface.gateway_api route =
    if not (requires_dual_token_headers route.auth) && not (requires_access_token_only route.auth)
    then err (
        lit "gateway-api route "
        ++ route_label route
        ++ lit " must declare an Access-Token-bearing auth profile (found "
        ++ route_auth_label route.auth
        ++ lit ")")
    else ok tt
check_auth_on_surface WebApiSurface.backend_api route =
    if not (is_anonymous route.auth)
      && not (requires_dual_token_headers route.auth)
      && not (requires_access_token_only route.auth)
      && not (is_bootstrap_body_credential_mode route.auth)
      && not (is_agent_token_credential_mode route.auth)
    then err (
        lit "backend-api route "
        ++ route_label route
        ++ lit
            " must declare a protected, bootstrap-body, or explicitly public auth profile (found "
        ++ route_auth_label route.auth
        ++ lit ")")
    else ok tt
check_auth_on_surface WebApiSurface.internal_api route =
    if not (is_ingress_token_credential_mode route.auth)
    then err (
        lit "internal-api route "
        ++ route_label route
        ++ lit " must declare RouteAuth::IngressToken (found "
        ++ route_auth_label route.auth
        ++ lit ")")
    else ok tt
check_auth_on_surface WebApiSurface.open_api route =
    if is_anonymous route.auth
    then ok tt
    else if auth_eq route.auth RouteAuth.compatibility
    then ok tt
    else if requires_dual_token_headers route.auth || auth_eq route.auth RouteAuth.refresh_token
    then err (
        lit "open-api route "
        ++ route_label route
        ++ lit " must not use "
        ++ route_auth_label route.auth
        ++ lit " auth; declare api-key, oauth, open-api-flexible, or api-key-or-dual-token")
    else if not (is_open_api_credential_mode route.auth)
    then err (
        lit "open-api protected route "
        ++ route_label route
        ++ lit " must declare an open-api credential mode (found "
        ++ route_auth_label route.auth
        ++ lit ")")
    else ok tt
check_auth_on_surface WebApiSurface.unknown route = ok tt

module _ (J : Json) (quoted : Str → Str) (profile : WebRequestContextProfile) where
  -- the loop over the routes
  unfoldable pub validate_auth_of : List HttpRoute → Result (Unit {0}) Str
  validate_auth_of [] = ok tt
  validate_auth_of (route ∷ routes) =
      let rest = validate_auth_of routes in
      do
        validate_compatibility_contract J route
        validate_log_retention quoted route
        check_auth_on_surface (classify_api_surface route.path profile) route
        rest

  unfoldable pub validate_route_auth_for_surfaces : HttpRouteManifest → Result (Unit {0}) Str
  unfolding validate_auth_of
  validate_route_auth_for_surfaces manifest = validate_auth_of manifest.routes

module _ (profile : WebRequestContextProfile) where
  -- the inner loop, over the markers
  unfoldable pub reject_ambient_markers : HttpRoute → List Str → Result (Unit {0}) Str
  reject_ambient_markers route [] = ok tt
  reject_ambient_markers route (marker ∷ markers) =
      let rest = reject_ambient_markers route markers in
      if contains marker (to_ascii_lowercase (normalize_path route.path))
      then err (
          lit "manifest route "
          ++ route_label route
          ++ lit " uses forbidden ambient context path marker `"
          ++ marker
          ++ lit "` (B8)")
      else rest

  -- the outer loop, over the routes
  unfoldable pub validate_markers_of : List HttpRoute → Result (Unit {0}) Str
  unfolding reject_ambient_markers
  validate_markers_of [] = ok tt
  validate_markers_of (route ∷ routes) =
      let rest = validate_markers_of routes in
      if not (requires_client_context_selector_guard (classify_api_surface route.path profile))
      then rest
      else if is_canonical_iam_context_resource_path
          (to_ascii_lowercase (normalize_path route.path))
      then rest
      else (reject_ambient_markers route forbidden_ambient_context_path_markers >> rest)

  unfoldable pub validate_no_ambient_context_path_markers :
      HttpRouteManifest → Result (Unit {0}) Str
  unfolding validate_markers_of
  validate_no_ambient_context_path_markers manifest = validate_markers_of manifest.routes
