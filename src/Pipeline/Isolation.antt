-- ===== src/Pipeline/Isolation.antt =====
-- crates/sdkwork-web-core/src/path_resource_guard.rs and policies.rs: the identifiers of tenants and
-- organizations in a path, the policies of the runtime, and the two stages that apply them.
-- Security events are not modelled: emitters succeed.
pub mod Anonymous
pub mod PathGuard
use sdkwork_web_framework.Base.{
  ℕ, Bool, true, false, not, ◌&&◌, ◌||◌, ◌==◌, Option, none, some, List, [], ◌∷◌, ◌++◌, filter, any,
  is_empty, is_some, if◌then◌else◌, unwrap_or, and_then, Result, ok, err, ◌>>=◌, ◌>>◌,
}
use sdkwork_web_framework.Base.Text.{
  Str, lit, str_eq, strip_prefix, to_ascii_lowercase, split, trim, trim_matches, is_slash,
}
use sdkwork_web_framework.Base.Text.Ops.{strip_suffix}
use sdkwork_web_framework.Contract.{HttpRoute, skips_credential_resolution, is_optional_credential}
use sdkwork_web_framework.Errors.{WebFrameworkError, forbidden}
use sdkwork_web_framework.Manifest.{HttpRouteManifest, match_route, route_path_matches}
use sdkwork_web_framework.Pipeline.State.{WebCallState, to_context}
use sdkwork_web_framework.Pipeline.Resolution.{is_surface}
use sdkwork_web_framework.Principal.{WebRequestPrincipal}
use sdkwork_web_framework.Principal.Context.{
  WebRequestContext, require_principal, require_tenant_id, require_app_id, has_permission,
}
use sdkwork_web_framework.Surface.{WebApiSurface}

pub record PathResourceIds : Type 0 where
  pub tenant_id : Option Str
  pub organization_id : Option Str

unfoldable pub normalize_param_name : Str → Str
normalize_param_name name =
    to_ascii_lowercase (filter (λ ch. not (ch == b'_') && not (ch == b'-')) name)

unfoldable pub is_tenant_path_param : Str → Bool
is_tenant_path_param name =
    any (str_eq (normalize_param_name name)) (lit "tenantid" ∷ lit "tenant" ∷ [])

unfoldable pub is_organization_path_param : Str → Bool
is_organization_path_param name =
    any (str_eq (normalize_param_name name))
      (lit "organizationid" ∷ lit "organization" ∷ lit "orgid" ∷ lit "org" ∷ [])

-- the name between the braces of a segment
unfoldable pub param_name : Str → Option Str
param_name template =
    and_then (strip_prefix (lit "{") template) (λ value. strip_suffix (lit "}") value)

-- one turn of the loop over the segments
unfoldable pub record_segment : Str → Str → PathResourceIds → PathResourceIds
unfolding param_name
record_segment template actual ids = elim (param_name template) [
  | none ↦ ids
  | some name ↦
      let with_tenant =
        if is_tenant_path_param name then record ids { tenant_id = some actual } else ids in
      if is_organization_path_param name
      then record with_tenant { organization_id = some actual }
      else with_tenant
]

unfoldable pub collect_ids : List Str → List Str → PathResourceIds → PathResourceIds
unfolding record_segment
collect_ids [] actuals ids = ids
collect_ids (template ∷ templates) [] ids = ids
collect_ids (template ∷ templates) (actual ∷ actuals) ids =
    collect_ids templates actuals (record_segment template actual ids)

-- `path_segments` of this file
unfoldable pub resource_segments : Str → List Str
resource_segments path =
    filter (λ segment. not (is_empty segment)) (split b'/' (trim_matches is_slash (trim path)))

unfoldable pub extract_path_resource_ids : Str → Str → PathResourceIds
unfolding collect_ids resource_segments
extract_path_resource_ids manifest_path request_path =
    if not (route_path_matches manifest_path request_path)
    then record { tenant_id = none; organization_id = none }
    else collect_ids (resource_segments manifest_path) (resource_segments request_path)
        (record { tenant_id = none; organization_id = none })

unfoldable pub allows_cross_tenant_resource_access : WebRequestContext → Option Str → Bool
allows_cross_tenant_resource_access ctx required_permission =
    if not (is_surface ctx.api_surface WebApiSurface.backend_api)
    then false
    else elim required_permission [ none ↦ false | some permission ↦ has_permission ctx permission ]

unfoldable pub tenant_mismatch : Option Str → WebRequestPrincipal → Bool
tenant_mismatch none principal = false
tenant_mismatch (some path_tenant) principal = not (str_eq path_tenant principal.tenancy.tenant_id)

unfoldable pub organization_mismatch : Option Str → WebRequestPrincipal → Bool
organization_mismatch none principal = false
organization_mismatch (some path_org) principal =
    not (str_eq path_org (unwrap_or principal.tenancy.organization_id (lit "0")))
    && not (str_eq path_org (lit "0"))

-- the checks on the identifiers of the path; a cross-tenant permission ends them
unfoldable pub verify_ids :
    Bool → PathResourceIds → WebRequestPrincipal → Result (Unit {0}) WebFrameworkError
unfolding tenant_mismatch organization_mismatch
verify_ids cross_tenant ids principal =
    if tenant_mismatch ids.tenant_id principal
    then (if cross_tenant
        then ok tt
        else err (
            forbidden (
              lit "path tenant resource id `"
              ++ unwrap_or ids.tenant_id []
              ++ lit "` does not match authenticated tenant `"
              ++ principal.tenancy.tenant_id
              ++ lit "`")))
    else if organization_mismatch ids.organization_id principal
    then (if cross_tenant
        then ok tt
        else err (
            forbidden (
              lit "path organization resource id `"
              ++ unwrap_or ids.organization_id []
              ++ lit "` does not match authenticated organization `"
              ++ unwrap_or principal.tenancy.organization_id (lit "0")
              ++ lit "`")))
    else ok tt

unfoldable pub verify_path_resource_ids_match_principal :
    WebRequestContext → Str → Option Str → Result (Unit {0}) WebFrameworkError
unfolding verify_ids
verify_path_resource_ids_match_principal ctx manifest_path required_permission =
    elim ctx.principal [
      | none ↦ ok tt
      | some principal ↦
          let ids = extract_path_resource_ids manifest_path ctx.transport.path in
          if not (is_some ids.tenant_id) && not (is_some ids.organization_id)
          then ok tt
          else verify_ids (allows_cross_tenant_resource_access ctx required_permission) ids
              principal
    ]

-- the traits `AuthorizationPolicy` and `TenantIsolationPolicy`; the operation is not read by the
-- policies of the framework
abbrev pub ContextPolicy : Type 0
ContextPolicy = WebRequestContext → Option Str → Result (Unit {0}) WebFrameworkError

-- the check of the permission that a route requires
unfoldable pub authorize_required :
    Option Str → WebRequestContext → Result (Unit {0}) WebFrameworkError
authorize_required none ctx = ok tt
authorize_required (some required) ctx =
    if is_surface ctx.api_surface WebApiSurface.app_api
    then ok tt
    else if not (has_permission ctx required)
    then err (forbidden (lit "missing required permission: " ++ required))
    else ok tt

-- `ManifestAuthorizationPolicy`
unfoldable pub manifest_authorization : HttpRouteManifest → ContextPolicy
unfolding authorize_required
manifest_authorization manifest ctx operation_id =
    elim (match_route manifest ctx.transport.method ctx.transport.path) [
      | none ↦ do principal ← require_principal ctx; ok tt
      | some route ↦
          if skips_credential_resolution route.auth
          then ok tt
          else if is_optional_credential route.auth
          then ok tt
          else require_principal ctx
            >>= (λ principal. authorize_required route.required_permission ctx)
    ]

unfoldable pub deny_all_authorization : ContextPolicy
deny_all_authorization ctx operation_id =
    err (forbidden (lit "authorization policy is not configured for this deployment"))

-- `AllowAllAuthorizationPolicy` and `PassThroughTenantIsolationPolicy`
unfoldable pub allow_all : ContextPolicy
allow_all ctx operation_id = ok tt

-- `EnforcePrincipalTenantIsolationPolicy`
unfoldable pub enforce_principal_tenant_isolation : ContextPolicy
enforce_principal_tenant_isolation ctx operation_id = do
  principal ← require_principal ctx
  tenant_id ← require_tenant_id ctx
  app_id ← require_app_id ctx
  ok tt

-- The stage of authorization, up to the rate limit that follows it.
unfoldable pub authorization_stage :
    ContextPolicy → WebCallState → Result (Unit {0}) WebFrameworkError
authorization_stage authorization state =
    if not state.public_path && not state.cors_preflight
    then to_context state >>= (λ ctx. authorization ctx state.operation_id)
    else ok tt

-- the check of the path by the matched route; external wires are exempt
unfoldable pub check_matched_path :
    Option HttpRouteManifest
    → WebCallState
    → WebRequestContext
    → Result (Unit {0}) WebFrameworkError
check_matched_path route_manifest state ctx =
    elim (and_then route_manifest (λ manifest. match_route manifest state.method state.path)) [
      | none ↦ ok tt
      | some route ↦
          if is_some route.external_wire_protocol
          then ok tt
          else verify_path_resource_ids_match_principal ctx route.path route.required_permission
    ]

-- the stage of tenant isolation
unfoldable pub tenant_isolation_stage :
    Option HttpRouteManifest → ContextPolicy → WebCallState → Result (Unit {0}) WebFrameworkError
unfolding check_matched_path
tenant_isolation_stage route_manifest tenant_isolation state =
    if not state.public_path && not state.cors_preflight
    then to_context state >>= (λ ctx.
      check_matched_path route_manifest state ctx >> tenant_isolation ctx state.operation_id)
    else ok tt
