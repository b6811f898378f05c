-- ===== src/Manifest/Accepted.antt =====
-- What the start-up checks of a manifest establish.
use sdkwork_web_framework.Base.{false, List, [], ◌∷◌, ◌≡◌, ◌≢◌, refl, ◌↔◌, arith, any, All, Any, ok}
use sdkwork_web_framework.Base.Lists.Laws.{All-at}
use sdkwork_web_framework.Base.Text.{Str}
use sdkwork_web_framework.Contract.{
  RouteAuth, HttpRoute, skips_credential_resolution, auth_eq, is_anonymous, is_optional_credential,
  requires_access_token_only, is_bootstrap_body_credential_mode, requires_dual_token_headers,
  is_open_api_credential_mode, is_agent_token_credential_mode, is_ingress_token_credential_mode,
}
use sdkwork_web_framework.Contract.Validation.{
  Json, validate_compatibility_contract, validate_log_retention,
}
use sdkwork_web_framework.Surface.{
  WebApiSurface, WebRequestContextProfile, classify_api_surface, matches_prefix, normalize_path,
  is_public_path,
}
use sdkwork_web_framework.Manifest.{HttpRouteManifest}
use sdkwork_web_framework.Manifest.Validation.{
  reject_covering_prefixes, validate_prefixes_of, validate_public_path_prefixes,
  check_auth_on_surface, validate_auth_of, validate_route_auth_for_surfaces,
}

module _ (quoted : Str → Str) where
  covering_iff :
      (route : HttpRoute) (prefixes : List Str)
      → (reject_covering_prefixes quoted route prefixes ≡ ok tt)
        ↔ (any (matches_prefix (normalize_path route.path)) prefixes ≡ false)
  unfolding reject_covering_prefixes
  covering_iff route [] = ground arith
  covering_iff route (p ∷ prefixes) = ground (arith, covering_iff route prefixes)

  prefixes_of_iff :
      (routes : List HttpRoute) (prefixes : List Str)
      → (validate_prefixes_of quoted routes prefixes ≡ ok tt)
        ↔ All
            (λ r.
              skips_credential_resolution r.auth ≡ false
              → any (matches_prefix (normalize_path r.path)) prefixes ≡ false)
            routes
  unfolding validate_prefixes_of
  prefixes_of_iff [] prefixes = ground arith
  prefixes_of_iff (r ∷ routes) prefixes =
      ground (arith, covering_iff r prefixes, prefixes_of_iff routes prefixes)

-- The prefix check passes exactly when no route that resolves credentials has a path that the
-- public prefixes of the profile would let through.
pub validate_public_path_prefixes_iff :
    (quoted : Str → Str) (profile : WebRequestContextProfile) (manifest : HttpRouteManifest)
    → (validate_public_path_prefixes quoted manifest profile.public_path_prefixes ≡ ok tt)
      ↔ All
          (λ r. skips_credential_resolution r.auth ≡ false → is_public_path r.path profile ≡ false)
          manifest.routes
unfolding validate_public_path_prefixes is_public_path
validate_public_path_prefixes_iff quoted profile manifest =
    prefixes_of_iff quoted manifest.routes profile.public_path_prefixes

-- The authentication profiles that each surface admits.
pub data Admits : WebApiSurface → RouteAuth → Type 0 where
  app_public : Admits WebApiSurface.app_api RouteAuth.public
  app_refresh : Admits WebApiSurface.app_api RouteAuth.refresh_token
  app_optional : Admits WebApiSurface.app_api RouteAuth.dual_token_or_anonymous
  app_dual : Admits WebApiSurface.app_api RouteAuth.dual_token
  app_entry : Admits WebApiSurface.app_api RouteAuth.credential_entry_bootstrap
  gateway_dual : Admits WebApiSurface.gateway_api RouteAuth.dual_token
  gateway_entry : Admits WebApiSurface.gateway_api RouteAuth.credential_entry_bootstrap
  backend_public : Admits WebApiSurface.backend_api RouteAuth.public
  backend_dual : Admits WebApiSurface.backend_api RouteAuth.dual_token
  backend_entry : Admits WebApiSurface.backend_api RouteAuth.credential_entry_bootstrap
  backend_body : Admits WebApiSurface.backend_api RouteAuth.bootstrap_body
  backend_agent : Admits WebApiSurface.backend_api RouteAuth.agent_token
  internal_ingress : Admits WebApiSurface.internal_api RouteAuth.ingress_token
  open_public : Admits WebApiSurface.open_api RouteAuth.public
  open_compatibility : Admits WebApiSurface.open_api RouteAuth.compatibility
  open_key : Admits WebApiSurface.open_api RouteAuth.api_key
  open_oauth : Admits WebApiSurface.open_api RouteAuth.oauth
  open_flexible : Admits WebApiSurface.open_api RouteAuth.open_api_flexible
  open_key_or_dual : Admits WebApiSurface.open_api RouteAuth.api_key_or_dual_token
  unclassified : (a : RouteAuth) → Admits WebApiSurface.unknown a

Admits-of-check :
    (s : WebApiSurface) (a : RouteAuth) (r : HttpRoute)
    → r.auth ≡ a
    → check_auth_on_surface s r ≡ ok tt
    → Admits s a
unfolding check_auth_on_surface is_anonymous is_optional_credential requires_access_token_only
    is_bootstrap_body_credential_mode requires_dual_token_headers is_open_api_credential_mode
    is_agent_token_credential_mode is_ingress_token_credential_mode auth_eq
Admits-of-check WebApiSurface.app_api RouteAuth.public r e h = app_public
Admits-of-check WebApiSurface.app_api RouteAuth.refresh_token r e h = app_refresh
Admits-of-check WebApiSurface.app_api RouteAuth.dual_token_or_anonymous r e h = app_optional
Admits-of-check WebApiSurface.app_api RouteAuth.dual_token r e h = app_dual
Admits-of-check WebApiSurface.app_api RouteAuth.credential_entry_bootstrap r e h = app_entry
Admits-of-check WebApiSurface.gateway_api RouteAuth.dual_token r e h = gateway_dual
Admits-of-check WebApiSurface.gateway_api RouteAuth.credential_entry_bootstrap r e h = gateway_entry
Admits-of-check WebApiSurface.backend_api RouteAuth.public r e h = backend_public
Admits-of-check WebApiSurface.backend_api RouteAuth.dual_token r e h = backend_dual
Admits-of-check WebApiSurface.backend_api RouteAuth.credential_entry_bootstrap r e h = backend_entry
Admits-of-check WebApiSurface.backend_api RouteAuth.bootstrap_body r e h = backend_body
Admits-of-check WebApiSurface.backend_api RouteAuth.agent_token r e h = backend_agent
Admits-of-check WebApiSurface.internal_api RouteAuth.ingress_token r e h = internal_ingress
Admits-of-check WebApiSurface.open_api RouteAuth.public r e h = open_public
Admits-of-check WebApiSurface.open_api RouteAuth.compatibility r e h = open_compatibility
Admits-of-check WebApiSurface.open_api RouteAuth.api_key r e h = open_key
Admits-of-check WebApiSurface.open_api RouteAuth.oauth r e h = open_oauth
Admits-of-check WebApiSurface.open_api RouteAuth.open_api_flexible r e h = open_flexible
Admits-of-check WebApiSurface.open_api RouteAuth.api_key_or_dual_token r e h = open_key_or_dual
Admits-of-check WebApiSurface.unknown a r e h = unclassified a
Admits-of-check s a r e h = absurd (ground (arith))

check-of-Admits :
    {s : WebApiSurface} {a : RouteAuth} (r : HttpRoute)
    → Admits s a
    → r.auth ≡ a
    → check_auth_on_surface s r ≡ ok tt
unfolding check_auth_on_surface is_anonymous is_optional_credential requires_access_token_only
    is_bootstrap_body_credential_mode requires_dual_token_headers is_open_api_credential_mode
    is_agent_token_credential_mode is_ingress_token_credential_mode auth_eq
check-of-Admits r app_public e = ground arith
check-of-Admits r (unclassified a) e = refl
check-of-Admits r other e = ground arith

-- What the check asks of one route.
abbrev pub Passes : Json → (Str → Str) → WebRequestContextProfile → HttpRoute → Type 0
Passes J quoted profile r =
    (validate_compatibility_contract J r ≡ ok tt)
    × (validate_log_retention quoted r ≡ ok tt)
    × Admits (classify_api_surface r.path profile) r.auth

module _ (J : Json) (quoted : Str → Str) (profile : WebRequestContextProfile) where
  auth_of_sound :
      (routes : List HttpRoute)
      → validate_auth_of J quoted profile routes ≡ ok tt
      → All (Passes J quoted profile) routes
  unfolding validate_auth_of
  auth_of_sound [] h = tt
  auth_of_sound (r ∷ routes) h =
      let surface = classify_api_surface r.path profile in
      (
        (ground arith, ground arith, Admits-of-check surface r.auth r refl (ground arith)),
        auth_of_sound routes (ground arith),
      )

  auth_of_complete :
      (routes : List HttpRoute)
      → All (Passes J quoted profile) routes
      → validate_auth_of J quoted profile routes ≡ ok tt
  unfolding validate_auth_of
  auth_of_complete [] h = refl
  auth_of_complete (r ∷ routes) ((c, l, a), h) =
      rw (c, l, check-of-Admits r a refl) (auth_of_complete routes h)

-- A manifest passes exactly when each route has valid compatibility metadata and log retention,
-- and an authentication profile that the surface of its path admits.
pub validate_route_auth_for_surfaces_iff :
    (J : Json) (quoted : Str → Str) (profile : WebRequestContextProfile)
    (manifest : HttpRouteManifest)
    → (validate_route_auth_for_surfaces J quoted profile manifest ≡ ok tt)
      ↔ All (Passes J quoted profile) manifest.routes
unfolding validate_route_auth_for_surfaces
validate_route_auth_for_surfaces_iff J quoted profile manifest = (
  auth_of_sound J quoted profile manifest.routes,
  auth_of_complete J quoted profile manifest.routes,
)

bearer_not_admitted :
    {s : WebApiSurface} {a : RouteAuth}
    → s ≡ WebApiSurface.open_api
    → a ≡ RouteAuth.open_api_bearer_flexible
    → ¬ Admits s a
bearer_not_admitted es ea (unclassified a) = cc es
bearer_not_admitted es ea app_public = cc ea
bearer_not_admitted es ea other = cc ea

-- A manifest with an open-api route that declares the open-api bearer profile never passes.
pub bearer_flexible_rejected :
    (J : Json) (quoted : Str → Str) (profile : WebRequestContextProfile)
    (manifest : HttpRouteManifest) (r : HttpRoute)
    → Any (λ x. x ≡ r) manifest.routes
    → classify_api_surface r.path profile ≡ WebApiSurface.open_api
    → r.auth ≡ RouteAuth.open_api_bearer_flexible
    → validate_route_auth_for_surfaces J quoted profile manifest ≢ ok tt
bearer_flexible_rejected J quoted profile manifest r listed surface auth h =
    let passes =
      All-at (Passes J quoted profile)
        ((validate_route_auth_for_surfaces_iff J quoted profile manifest).0 h) listed in
    bearer_not_admitted surface auth passes.2
