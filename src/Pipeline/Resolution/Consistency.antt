-- ===== src/Pipeline/Resolution/Consistency.antt =====
-- A call that is resolved has a principal exactly where its mode is not an anonymous one.
use sdkwork_web_framework.Base.{
  true, false, not, ◌&&◌, ◌||◌, Option, none, some, is_some, if◌then◌else◌, ◌≡◌, refl, arith, ok,
  is_ok,
}
use sdkwork_web_framework.Base.Text.{Str, lit}
use sdkwork_web_framework.Contract.{RouteAuth}
use sdkwork_web_framework.Errors.{with_reason, missing_credentials, not_found}
use sdkwork_web_framework.Http.{HeaderMap}
use sdkwork_web_framework.OpenApiAuth.{}
use sdkwork_web_framework.Pipeline.State.{WebCallState, credentials_present}
use sdkwork_web_framework.Pipeline.Resolution.{
  CallRuntime, anonymously, refuse, settle, tagged, finish_access_token_only_context,
  finish_credential_entry_bootstrap_context, resolve_compatibility_route, resolve_open_api_scheme,
  resolve_open_api, resolve_internal_api, resolve_agent_token, resolve_dual_token_context,
  resolve_optional_credential, resolve_first_party, resolve_first_party_as, resolve_open_api_as,
  resolve_on_surface, resolve_request_context, require_authenticated_context, is_optional_route,
  is_public_mode,
}
use sdkwork_web_framework.Principal.Context.{WebAuthMode}
use sdkwork_web_framework.Surface.{WebApiSurface}
use sdkwork_web_framework.Pipeline.Resolution.Personal.{
  personal, is_anonymous_mode, IsConsistent, Personal-settle, Personal-tagged, if-IsConsistent,
  refuse-IsConsistent, resolve_open_api-Personal, bearer_flexible-Personal,
}

module _ (state : WebCallState) (runtime : CallRuntime) where
  access_token_only-IsConsistent :
      (mode : WebAuthMode) (message reason : Str)
      → is_anonymous_mode mode ≡ false
      → IsConsistent (finish_access_token_only_context state runtime mode message reason)
  unfolding finish_access_token_only_context
  access_token_only-IsConsistent mode message reason h =
      elim state.credentials.access_token
        as (λ o. IsConsistent (elim o [
          | none ↦ refuse state (with_reason (missing_credentials message) reason)
          | some token ↦
              settle (record state { auth_mode = mode })
                (tagged mode (runtime.resolver.resolve_access_token token))
        ])) [
          | none ↦ refuse-IsConsistent state (with_reason (missing_credentials message) reason)
          | some token ↦
              Personal-settle (record state { auth_mode = mode }) _
                (Personal-tagged mode (runtime.resolver.resolve_access_token token) h)
        ]

  entry_bootstrap-IsConsistent :
      IsConsistent (finish_credential_entry_bootstrap_context state runtime)
  unfolding finish_credential_entry_bootstrap_context
  entry_bootstrap-IsConsistent =
      access_token_only-IsConsistent WebAuthMode.credential_entry_bootstrap _ _ refl

  anonymously-IsConsistent :
      (mode : WebAuthMode) → is_anonymous_mode mode ≡ true → IsConsistent (anonymously mode state)
  unfolding anonymously
  anonymously-IsConsistent mode h e = rw h refl

  compatibility_route-IsConsistent :
      (headers : HeaderMap) → IsConsistent (resolve_compatibility_route state headers runtime)
  unfolding resolve_compatibility_route
  compatibility_route-IsConsistent headers = Personal-settle state _ (search personal)

  open_api_scheme-IsConsistent :
      (headers : HeaderMap) (auth : Option RouteAuth)
      → IsConsistent (resolve_open_api_scheme state headers runtime auth)
  unfolding resolve_open_api_scheme
  open_api_scheme-IsConsistent headers auth = Personal-settle state _ (
      resolve_open_api-Personal state.credentials headers auth runtime.open_api_scheme_detector
        runtime.resolver)

  agent_token-IsConsistent : IsConsistent (resolve_agent_token state runtime)
  unfolding resolve_agent_token
  agent_token-IsConsistent = Personal-settle state _ (search personal)

  dual_token-IsConsistent : IsConsistent (resolve_dual_token_context state runtime)
  unfolding resolve_dual_token_context
  dual_token-IsConsistent = Personal-settle state _ (search personal)

  optional_credential-IsConsistent : IsConsistent (resolve_optional_credential state runtime)
  unfolding resolve_optional_credential
  optional_credential-IsConsistent =
      elim state.credentials.access_token
        as (λ o. IsConsistent (elim o [
          | none ↦ anonymously WebAuthMode.public state
          | some token ↦ elim state.credentials.auth_token [
            | none ↦ anonymously WebAuthMode.public state
            | some auth ↦
                settle state
                  (tagged WebAuthMode.dual_token (runtime.resolver.resolve_dual_token auth token))
          ]
        ])) [
          | none ↦ anonymously-IsConsistent WebAuthMode.public refl
          | some token ↦
              elim state.credentials.auth_token
                as (λ o. IsConsistent (elim o [
                  | none ↦ anonymously WebAuthMode.public state
                  | some auth ↦ settle state (
                      tagged WebAuthMode.dual_token
                        (runtime.resolver.resolve_dual_token auth token))
                ])) [
                  | none ↦ anonymously-IsConsistent WebAuthMode.public refl
                  | some auth ↦ Personal-settle state _ (search personal)
                ]
        ]

  internal_api-IsConsistent : IsConsistent (resolve_internal_api state runtime)
  unfolding resolve_internal_api
  internal_api-IsConsistent =
      if-IsConsistent _ _ _ (refuse-IsConsistent state _)
        (Personal-settle state _ (search personal))

  first_party_as-IsConsistent :
      (auth : RouteAuth) → IsConsistent (resolve_first_party_as auth state runtime)
  unfolding resolve_first_party_as
  first_party_as-IsConsistent RouteAuth.public =
      if-IsConsistent _ _ _ (anonymously-IsConsistent WebAuthMode.public refl)
        (refuse-IsConsistent state _)
  first_party_as-IsConsistent RouteAuth.dual_token_or_anonymous =
      if-IsConsistent _ _ _ (refuse-IsConsistent state _) optional_credential-IsConsistent
  first_party_as-IsConsistent RouteAuth.bootstrap_body =
      if-IsConsistent _ _ _ (refuse-IsConsistent state _)
        (anonymously-IsConsistent WebAuthMode.bootstrap_body refl)
  first_party_as-IsConsistent RouteAuth.credential_entry_bootstrap = entry_bootstrap-IsConsistent
  first_party_as-IsConsistent RouteAuth.refresh_token =
      if-IsConsistent _ _ _ (refuse-IsConsistent state _)
        (anonymously-IsConsistent WebAuthMode.refresh_token refl)
  first_party_as-IsConsistent RouteAuth.agent_token = agent_token-IsConsistent
  first_party_as-IsConsistent _ = dual_token-IsConsistent

  first_party-IsConsistent : IsConsistent (resolve_first_party state runtime)
  unfolding resolve_first_party
  first_party-IsConsistent =
      elim state.route_auth
        as (λ o. IsConsistent (elim o [
          | none ↦
              if is_some runtime.route_manifest
              then refuse state (
                  with_reason
                    (not_found (lit "route is not registered in the gateway route manifest"))
                    (lit "route-not-in-manifest"))
              else resolve_dual_token_context state runtime
          | some auth ↦ resolve_first_party_as auth state runtime
        ])) [
          | none ↦ if-IsConsistent _ _ _ (refuse-IsConsistent state _) dual_token-IsConsistent
          | some auth ↦ first_party_as-IsConsistent auth
        ]

  module _ (headers : HeaderMap) where
    open_api_as-IsConsistent :
        (auth : RouteAuth) → IsConsistent (resolve_open_api_as auth state headers runtime)
    unfolding resolve_open_api_as
    open_api_as-IsConsistent RouteAuth.public = anonymously-IsConsistent WebAuthMode.public refl
    open_api_as-IsConsistent RouteAuth.refresh_token = refuse-IsConsistent state _
    open_api_as-IsConsistent RouteAuth.credential_entry_bootstrap = entry_bootstrap-IsConsistent
    open_api_as-IsConsistent RouteAuth.compatibility = compatibility_route-IsConsistent headers
    open_api_as-IsConsistent RouteAuth.open_api_bearer_flexible = Personal-settle state _ (
        bearer_flexible-Personal state.credentials runtime.open_api_bearer_classifier
          runtime.resolver)
    open_api_as-IsConsistent auth = open_api_scheme-IsConsistent headers (some auth)

    open_api-IsConsistent : IsConsistent (resolve_open_api state headers runtime)
    unfolding resolve_open_api
    open_api-IsConsistent =
        elim state.route_auth
          as (λ o. IsConsistent (elim o [
            | none ↦ resolve_open_api_scheme state headers runtime (
                some (
                  if is_some state.credentials.access_token
                  then RouteAuth.api_key_or_dual_token
                  else RouteAuth.open_api_flexible))
            | some auth ↦ resolve_open_api_as auth state headers runtime
          ])) [
            | none ↦ open_api_scheme-IsConsistent headers _
            | some auth ↦ open_api_as-IsConsistent auth
          ]

    on_surface-IsConsistent :
        (surface : WebApiSurface) → IsConsistent (resolve_on_surface surface state headers runtime)
    unfolding resolve_on_surface
    on_surface-IsConsistent WebApiSurface.open_api = open_api-IsConsistent
    on_surface-IsConsistent WebApiSurface.internal_api = internal_api-IsConsistent
    on_surface-IsConsistent WebApiSurface.unknown = refuse-IsConsistent state _
    on_surface-IsConsistent _ = first_party-IsConsistent

-- Wherever the resolution of a call succeeds, on any surface, under any profile and with any
-- resolver, the call has a principal exactly if its mode is none of public, bootstrap body and
-- refresh token: no credential is accepted without a principal, and no anonymous mode has one.
pub resolve_request_context-IsConsistent :
    (state : WebCallState) (headers : HeaderMap) (runtime : CallRuntime)
    → (resolve_request_context state headers runtime).1 ≡ ok tt
    → is_some (resolve_request_context state headers runtime).0.principal
      ≡ not (is_anonymous_mode (resolve_request_context state headers runtime).0.auth_mode)
unfolding resolve_request_context
resolve_request_context-IsConsistent state headers runtime =
    if-IsConsistent state.cors_preflight _ _
      (anonymously-IsConsistent state runtime WebAuthMode.public refl)
      (if-IsConsistent _ _ _ (anonymously-IsConsistent state runtime WebAuthMode.public refl)
        (on_surface-IsConsistent state runtime headers state.api_surface))

-- The stage of authentication lets a call pass exactly if it needs no principal (a public path or a
-- preflight), or has one, or is an anonymous visit of an optional-credential route: its profile is
-- the optional one, its mode is public and it carries no credential of any kind.
pub require_authenticated_context_iff :
    (state : WebCallState)
    → is_ok (require_authenticated_context state) ≡ (
        state.public_path
        || state.cors_preflight
        || (is_optional_route state.route_auth
            && is_public_mode state.auth_mode
            && not (credentials_present state))
        || is_some state.principal)
unfolding require_authenticated_context
require_authenticated_context_iff state = ground arith
