-- ===== src/Pipeline/Isolation/Anonymous.antt =====
-- An anonymous visit of an optional-credential route, through three stages of the pipeline.
use sdkwork_web_framework.Base.{
  false, Option, none, some, is_some, ◌≡◌, refl, and_then, Bool-cases, Option-cases, inl, inr, ok,
  err,
}
use sdkwork_web_framework.Base.Text.{Str, lit}
use sdkwork_web_framework.Contract.{RouteAuth, auth_eq}
use sdkwork_web_framework.Errors.{missing_credentials}
use sdkwork_web_framework.Http.{HeaderMap}
use sdkwork_web_framework.Manifest.{HttpRouteManifest, match_route}
use sdkwork_web_framework.Pipeline.Isolation.{
  tenant_isolation_stage, enforce_principal_tenant_isolation, check_matched_path,
  verify_path_resource_ids_match_principal,
}
use sdkwork_web_framework.Pipeline.Resolution.{
  CallRuntime, resolve_request_context, resolve_on_surface, resolve_first_party,
  resolve_first_party_as, resolve_optional_credential, is_surface, require_authenticated_context,
  is_optional_route, is_public_mode,
}
use sdkwork_web_framework.Pipeline.State.{WebCallState, credentials_present, to_context}
use sdkwork_web_framework.Principal.Context.{WebAuthMode, WebRequestContext, require_principal}
use sdkwork_web_framework.Surface.{WebApiSurface}

-- A call of an optional-credential route of app-api that carries no credentials.
abbrev pub optional_visit : Str → WebCallState → WebCallState
optional_visit request_id state = record state {
  request_id = some request_id;
  api_surface = WebApiSurface.app_api;
  route_auth = some RouteAuth.dual_token_or_anonymous;
  cors_preflight = false;
  public_path = false;
  credentials = record {
    auth_token = none;
    access_token = none;
    api_key = none;
    ingress_token = none;
    oauth_bearer = none;
    agent_token = none;
  };
}

-- without a principal there is nothing to compare the path with
check_matched_path-anonymous :
    (route_manifest : Option HttpRouteManifest) (state : WebCallState) (ctx : WebRequestContext)
    → ctx.principal ≡ none
    → check_matched_path route_manifest state ctx ≡ ok tt
unfolding check_matched_path verify_path_resource_ids_match_principal
check_matched_path-anonymous route_manifest state ctx h =
    elim (Option-cases (and_then route_manifest (λ m. match_route m state.method state.path))) [
      | inl unmatched ↦ rw (check_matched_path, unmatched) refl
      | inr (route, matched) ↦ elim (Bool-cases (is_some route.external_wire_protocol)) [
        | inl external ↦ rw (check_matched_path, matched, external) refl
        | inr own ↦
            rw (check_matched_path, matched, own)
              (rw (verify_path_resource_ids_match_principal, h) refl)
      ]
    ]

isolation_refuses :
    (route_manifest : Option HttpRouteManifest) (state : WebCallState) (ctx : WebRequestContext)
    → to_context state ≡ ok ctx
    → ctx.principal ≡ none
    → state.public_path ≡ false
    → state.cors_preflight ≡ false
    → tenant_isolation_stage route_manifest enforce_principal_tenant_isolation state
      ≡ err (missing_credentials (lit "authenticated principal is required"))
unfolding tenant_isolation_stage enforce_principal_tenant_isolation require_principal
isolation_refuses route_manifest state ctx projected anonymous path preflight =
    rw
      (
        projected,
        check_matched_path-anonymous route_manifest state ctx anonymous,
        anonymous,
        path,
        preflight,
      )
      refl

-- An anonymous visitor of an optional-credential route of app-api is resolved to a public context
-- and passes the stage of authentication, under any resolver; the production policy of tenant
-- isolation then refuses the visitor for want of a principal.
pub optional_visit-refused :
    (request_id : Str) (state : WebCallState) (headers : HeaderMap) (runtime : CallRuntime)
    → (let resolved = resolve_request_context (optional_visit request_id state) headers runtime in
        (resolved.1 ≡ ok tt)
        × (resolved.0.auth_mode ≡ WebAuthMode.public)
        × (resolved.0.principal ≡ none)
        × (require_authenticated_context resolved.0 ≡ ok tt)
        × (tenant_isolation_stage runtime.route_manifest enforce_principal_tenant_isolation
              resolved.0
            ≡ err (missing_credentials (lit "authenticated principal is required"))))
unfolding resolve_request_context resolve_on_surface resolve_first_party resolve_first_party_as
    resolve_optional_credential is_surface require_authenticated_context is_optional_route
    is_public_mode credentials_present auth_eq to_context
optional_visit-refused request_id state headers runtime =
    (refl, refl, refl, refl, isolation_refuses runtime.route_manifest _ _ refl refl refl refl)
