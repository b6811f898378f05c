-- ===== src/Guards/ContextSelectors.antt =====
-- crates/sdkwork-web-core/src/client_context_guard.rs, with its tables in constants.rs: requests
-- must not select a tenant, an application or a subject by path, query or body key.
pub mod Query
use Prim.Native.Nat.{ℕ}
use sdkwork_web_framework.Base.{
  Bool, true, false, not, ◌&&◌, ◌||◌, Option, none, some, List, [], ◌∷◌, ◌++◌, if◌then◌else◌, ◌==◌,
  is_empty, any, all, filter, map, Result, ok, err, ◌>>=◌, ◌>>◌,
}
use sdkwork_web_framework.Base.Text.{
  Str, lit, str_eq, trim, split, starts_with, strip_prefix, contains, before_first, split_once,
  to_ascii_lowercase,
}
use sdkwork_web_framework.Errors.{WebFrameworkError, bad_request}
use sdkwork_web_framework.Surface.{WebApiSurface}

-- constants.rs
unfoldable pub forbidden_client_context_query_keys : List Str
unfolding lit
forbidden_client_context_query_keys =
    lit "tenant_id"
    ∷ lit "tenantid"
    ∷ lit "tenant"
    ∷ lit "tenant-id"
    ∷ lit "app_id"
    ∷ lit "appid"
    ∷ lit "app-id"
    ∷ lit "organization_id"
    ∷ lit "organizationid"
    ∷ lit "organization-id"
    ∷ lit "org_id"
    ∷ lit "orgid"
    ∷ lit "user_id"
    ∷ lit "userid"
    ∷ lit "user-id"
    ∷ lit "session_id"
    ∷ lit "sessionid"
    ∷ lit "session-id"
    ∷ []

unfoldable pub forbidden_ambient_context_path_markers : List Str
unfolding lit
forbidden_ambient_context_path_markers = lit "/tenants/" ∷ lit "/organizations/" ∷ []

-- crates/sdkwork-web-contract/src/openapi.rs
unfoldable pub iam_canonical_context_resource_prefixes : List Str
unfolding lit
iam_canonical_context_resource_prefixes = lit "/iam/organizations" ∷ lit "/iam/tenants" ∷ []

-- The prefix occurs, and the path ends there or goes on at a slash. Neither prefix overlaps a
-- second occurrence of itself, so `match_indices` visits every occurrence.
unfoldable pub occurs_at_boundary : Str → Str → Bool
occurs_at_boundary prefix [] = false
occurs_at_boundary prefix (c ∷ s) =
    let later = occurs_at_boundary prefix s in
    elim (strip_prefix prefix (c ∷ s)) [
      | none ↦ later
      | some suffix ↦ (is_empty suffix || starts_with (b'/' ∷ []) suffix) || later
    ]

-- `is_canonical_iam_context_resource_path` of openapi.rs
unfoldable pub is_canonical_iam_context_resource_path : Str → Bool
is_canonical_iam_context_resource_path path =
    let normalized = to_ascii_lowercase (before_first b'?' path) in
    any (λ prefix. occurs_at_boundary prefix normalized) iam_canonical_context_resource_prefixes

unfoldable pub normalize_selector_key : Str → Str
normalize_selector_key key =
    to_ascii_lowercase (filter (λ c. not (c == b'_') && not (c == b'-')) key)

unfoldable pub forbidden_query_keys : List Str
forbidden_query_keys = map normalize_selector_key forbidden_client_context_query_keys

unfoldable pub is_forbidden_context_selector_key : Str → Bool
is_forbidden_context_selector_key key =
    any (λ candidate. str_eq candidate (normalize_selector_key key)) forbidden_query_keys

unfoldable pub requires_client_context_selector_guard : WebApiSurface → Bool
requires_client_context_selector_guard WebApiSurface.app_api = true
requires_client_context_selector_guard WebApiSurface.open_api = true
requires_client_context_selector_guard WebApiSurface.internal_api = true
requires_client_context_selector_guard WebApiSurface.gateway_api = true
requires_client_context_selector_guard _ = false

-- `pair.split_once('=').map(|(key, _)| key).unwrap_or(pair)`
unfoldable pub key_of_pair : Str → Str
key_of_pair pair = elim (split_once b'=' pair) [ none ↦ pair | some (key, value) ↦ key ]

-- the loop over the pairs of a query
unfoldable pub reject_forbidden_pairs : List Str → Result (Unit {0}) WebFrameworkError
reject_forbidden_pairs [] = ok tt
reject_forbidden_pairs (pair ∷ pairs) =
    let rest = reject_forbidden_pairs pairs in
    if is_empty pair
    then rest
    else if is_forbidden_context_selector_key (trim (key_of_pair pair))
    then err (
        bad_request (
          lit "client must not supply context selector query parameter `"
          ++ key_of_pair pair
          ++ lit "`"))
    else rest

unfoldable pub reject_forbidden_context_query : Option Str → Result (Unit {0}) WebFrameworkError
reject_forbidden_context_query none = ok tt
reject_forbidden_context_query (some query) = reject_forbidden_pairs (split b'&' query)

-- the loop over the keys of a JSON object
unfoldable pub reject_forbidden_fields : List Str → Result (Unit {0}) WebFrameworkError
reject_forbidden_fields [] = ok tt
reject_forbidden_fields (key ∷ keys) =
    let rest = reject_forbidden_fields keys in
    if is_forbidden_context_selector_key key
    then err
        (bad_request (lit "client must not supply context selector body field `" ++ key ++ lit "`"))
    else rest

-- the loop over the markers
unfoldable pub reject_markers : Str → List Str → Result (Unit {0}) WebFrameworkError
reject_markers lowered [] = ok tt
reject_markers lowered (marker ∷ markers) =
    let rest = reject_markers lowered markers in
    if contains marker lowered
    then err (
        bad_request
          (lit "API paths must not use ambient tenant/org scoping marker `" ++ marker ++ lit "`"))
    else rest

unfoldable pub reject_forbidden_ambient_context_path : Str → Result (Unit {0}) WebFrameworkError
reject_forbidden_ambient_context_path path =
    if is_canonical_iam_context_resource_path path
    then ok tt
    else reject_markers (to_ascii_lowercase path) forbidden_ambient_context_path_markers

unfoldable pub reject_client_context_selectors :
    Str → Option Str → WebApiSurface → Result (Unit {0}) WebFrameworkError
reject_client_context_selectors path query api_surface =
    if not (requires_client_context_selector_guard api_surface)
    then ok tt
    else (reject_forbidden_ambient_context_path path >> reject_forbidden_context_query query)
