-- ===== src/Pipeline/Isolation/PathGuard.antt =====
-- What the guard on the identifiers in a path lets through.
use sdkwork_web_framework.Base.{
  Bool, true, false, not, ◌&&◌, ◌||◌, Option, none, some, is_some, List, [], ◌∷◌, ◌++◌, All, length,
  ◌≡◌, refl, arith, is_ok, if◌then◌else◌, ok,
}
use sdkwork_web_framework.Base.Text.{Str, str_eq}
use sdkwork_web_framework.Base.Text.Laws.{str_eq_sound}
use sdkwork_web_framework.Pipeline.Isolation.{
  PathResourceIds, param_name, is_tenant_path_param, record_segment, collect_ids, resource_segments,
  verify_ids, tenant_mismatch, organization_mismatch, extract_path_resource_ids,
  verify_path_resource_ids_match_principal, allows_cross_tenant_resource_access,
}
use sdkwork_web_framework.Manifest.{route_path_matches}
use sdkwork_web_framework.Pipeline.Resolution.{is_surface}
use sdkwork_web_framework.Principal.{WebRequestPrincipal}
use sdkwork_web_framework.Principal.Context.{WebRequestContext}
use sdkwork_web_framework.Surface.{WebApiSurface}

verify_ids_eq :
    (cross : Bool) (ids : PathResourceIds) (principal : WebRequestPrincipal)
    → is_ok (verify_ids cross ids principal) ≡ (
        cross
        || (not (tenant_mismatch ids.tenant_id principal)
            && not (organization_mismatch ids.organization_id principal)))
unfolding verify_ids
verify_ids_eq cross ids principal = ground arith

tenant_mismatch-none :
    (o : Option Str) (principal : WebRequestPrincipal)
    → is_some o ≡ false
    → tenant_mismatch o principal ≡ false
unfolding tenant_mismatch
tenant_mismatch-none none principal h = refl
tenant_mismatch-none (some t) principal h = cc h

organization_mismatch-none :
    (o : Option Str) (principal : WebRequestPrincipal)
    → is_some o ≡ false
    → organization_mismatch o principal ≡ false
unfolding organization_mismatch
organization_mismatch-none none principal h = refl
organization_mismatch-none (some t) principal h = cc h

checked_eq :
    (cross : Bool) (ids : PathResourceIds) (principal : WebRequestPrincipal)
    → is_ok (
        if not (is_some ids.tenant_id) && not (is_some ids.organization_id)
        then ok tt
        else verify_ids cross ids principal)
      ≡ (cross
          || (not (tenant_mismatch ids.tenant_id principal)
              && not (organization_mismatch ids.organization_id principal)))
checked_eq cross ids principal = ground (
  arith,
  tenant_mismatch-none ids.tenant_id principal,
  organization_mismatch-none ids.organization_id principal,
  verify_ids_eq cross ids principal,
)

-- The guard lets a call with a principal pass exactly if its path names no other tenant than the
-- principal's and no other organization (0, the tenant level, always passes), or if the call may
-- cross tenants, which only a backend-api call whose principal has the permission that the route
-- requires may.
pub verify_path_resource_ids_iff :
    (ctx : WebRequestContext) (manifest_path : Str) (required_permission : Option Str)
    (principal : WebRequestPrincipal)
    → ctx.principal ≡ some principal
    → is_ok (verify_path_resource_ids_match_principal ctx manifest_path required_permission) ≡ (
        allows_cross_tenant_resource_access ctx required_permission
        || (not (
              tenant_mismatch
                (extract_path_resource_ids manifest_path ctx.transport.path).tenant_id
                principal)
            && not (
                organization_mismatch
                  (extract_path_resource_ids manifest_path ctx.transport.path).organization_id
                  principal)))
unfolding verify_path_resource_ids_match_principal
verify_path_resource_ids_iff ctx manifest_path required_permission principal h =
    simp (verify_path_resource_ids_match_principal, h)
      (checked_eq (allows_cross_tenant_resource_access ctx required_permission)
        (extract_path_resource_ids manifest_path ctx.transport.path) principal)

cross_tenant-backend :
    (ctx : WebRequestContext) (required_permission : Option Str)
    → is_surface ctx.api_surface WebApiSurface.backend_api ≡ false
    → allows_cross_tenant_resource_access ctx required_permission ≡ false
unfolding allows_cross_tenant_resource_access
cross_tenant-backend ctx required_permission h = rw h refl

same_tenant :
    (cross : Bool) (tenant : Str) (principal : WebRequestPrincipal) (other : Bool)
    → cross ≡ false
    → true ≡ (cross || (not (tenant_mismatch (some tenant) principal) && not other))
    → str_eq tenant principal.tenancy.tenant_id ≡ true
unfolding tenant_mismatch
same_tenant cross tenant principal other h e = ground arith

-- the tenant that the guard reads from the path is the principal's
named_tenant-owned :
    (ctx : WebRequestContext) (manifest_path : Str) (required_permission : Option Str)
    (principal : WebRequestPrincipal) (tenant : Str)
    → ctx.principal ≡ some principal
    → is_surface ctx.api_surface WebApiSurface.backend_api ≡ false
    → verify_path_resource_ids_match_principal ctx manifest_path required_permission ≡ ok tt
    → (extract_path_resource_ids manifest_path ctx.transport.path).tenant_id ≡ some tenant
    → tenant ≡ principal.tenancy.tenant_id
named_tenant-owned ctx manifest_path required_permission principal tenant h surface passed named =
    let ids = extract_path_resource_ids manifest_path ctx.transport.path in
    let iff = verify_path_resource_ids_iff ctx manifest_path required_permission principal h in
    let same : str_eq tenant principal.tenancy.tenant_id ≡ true =
      same_tenant (allows_cross_tenant_resource_access ctx required_permission) tenant principal
        (organization_mismatch ids.organization_id principal)
        (cross_tenant-backend ctx required_permission surface) (rw (passed, named) at iff) in
    str_eq_sound tenant principal.tenancy.tenant_id same

-- Is the segment, braces and all, a parameter with the name of a tenant?
unfoldable pub is_tenant_segment : Str → Bool
is_tenant_segment segment = elim (param_name segment) [
  | none ↦ false
  | some name ↦ is_tenant_path_param name
]

abbrev pub IsNoTenant : Str → Type 0
IsNoTenant segment = is_tenant_segment segment ≡ false

record_segment-tenant :
    (segment actual : Str) (ids : PathResourceIds)
    → (record_segment segment actual ids).tenant_id
      ≡ (if is_tenant_segment segment then some actual else ids.tenant_id)
unfolding record_segment is_tenant_segment
record_segment-tenant segment actual ids = ground arith

collect_ids-IsNoTenant :
    (templates actuals : List Str) (ids : PathResourceIds)
    → All IsNoTenant templates
    → (collect_ids templates actuals ids).tenant_id ≡ ids.tenant_id
unfolding collect_ids
collect_ids-IsNoTenant [] actuals ids h = refl
collect_ids-IsNoTenant (t ∷ templates) [] ids h = refl
collect_ids-IsNoTenant (t ∷ templates) (a ∷ actuals) ids h =
    rw
      (
        collect_ids-IsNoTenant templates actuals (record_segment t a ids) h.1,
        record_segment-tenant t a ids,
        h.0,
      )
      refl

-- the loop keeps what stands at the last tenant parameter
collect_ids-last :
    (front back front' back' : List Str) (segment actual : Str) (ids : PathResourceIds)
    → length front ≡ length front'
    → is_tenant_segment segment ≡ true
    → All IsNoTenant back
    → (collect_ids (front ++ segment ∷ back) (front' ++ actual ∷ back') ids).tenant_id ≡ some actual
unfolding collect_ids
collect_ids-last [] back [] back' segment actual ids e t h =
    rw
      (
        collect_ids-IsNoTenant back back' (record_segment segment actual ids) h,
        record_segment-tenant segment actual ids,
        t,
      )
      refl
collect_ids-last [] back (a ∷ front') back' segment actual ids e t h = absurd (omega (arith, e))
collect_ids-last (f ∷ front) back [] back' segment actual ids e t h = absurd (omega (arith, e))
collect_ids-last (f ∷ front) back (a ∷ front') back' segment actual ids e t h =
    collect_ids-last front back front' back' segment actual (record_segment f a ids)
      (omega (arith, e)) t h

-- On every surface but backend-api, where the guard lets a call with a principal pass and the path
-- matches the template, the segment of the path that stands at the template's last tenant
-- parameter is the principal's tenant. A tenant parameter here is a whole segment in
-- braces; of one that shares its segment with other text, and of those before the last one,
-- nothing is stated.
pub path_tenant-owned :
    (ctx : WebRequestContext) (manifest_path : Str) (required_permission : Option Str)
    (principal : WebRequestPrincipal) (front back front' back' : List Str) (segment actual : Str)
    → ctx.principal ≡ some principal
    → is_surface ctx.api_surface WebApiSurface.backend_api ≡ false
    → verify_path_resource_ids_match_principal ctx manifest_path required_permission ≡ ok tt
    → route_path_matches manifest_path ctx.transport.path ≡ true
    → resource_segments manifest_path ≡ front ++ segment ∷ back
    → resource_segments ctx.transport.path ≡ front' ++ actual ∷ back'
    → length front ≡ length front'
    → is_tenant_segment segment ≡ true
    → All IsNoTenant back
    → actual ≡ principal.tenancy.tenant_id
unfolding extract_path_resource_ids
path_tenant-owned ctx manifest_path required_permission principal front back front' back' segment
      actual h surface passed matched template path e t last =
    named_tenant-owned ctx manifest_path required_permission principal actual h surface passed (
      rw (extract_path_resource_ids, matched, template, path)
        (collect_ids-last front back front' back' segment actual _ e t last))
