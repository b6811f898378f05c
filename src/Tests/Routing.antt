-- ===== src/Tests/Routing.antt =====
-- Route manifests, surfaces and guards at concrete inputs.
use sdkwork_web_framework.Base.{
  false, List, none, some, [], ◌∷◌, ◌++◌, ◌≡◌, ◌≢◌, refl, ◌↔◌, All, here, ok, err,
}
use sdkwork_web_framework.Base.Text.{
  Str, lit, str_eq, trim, trim_matches, trim_start, trim_end, is_slash, split, split_from, join,
  split_once, contains, starts_with, ends_with, upper_char, to_ascii_uppercase, is_whitespace,
}
use sdkwork_web_framework.Contract.{HttpMethod, HttpRoute, RouteAuth, new}
use sdkwork_web_framework.Contract.Validation.{Json, is_blank}
use sdkwork_web_framework.Surface.{
  internal_api_prefix, default_profile, normalize_path, matches_prefix, classify_api_surface,
}
use sdkwork_web_framework.Manifest.{
  HttpRouteManifest, http_method_matches, http_method_label, segments_match, is_full_parameter,
  position, segment_has_parameters, is_candidate, match_route, template_has_parameters,
  template_segment_matches, route_path_matches, path_segments,
}
use sdkwork_web_framework.Manifest.Selection.{
  IsSelected, match_route-IsSelected, match_route-literal,
}
use sdkwork_web_framework.Manifest.Patterns.{Pattern, fixed, placeholder, between}
use sdkwork_web_framework.Manifest.Validation.{validate_route_auth_for_surfaces}
use sdkwork_web_framework.Manifest.Accepted.{
  Passes, validate_route_auth_for_surfaces_iff, bearer_flexible_rejected,
}
use sdkwork_web_framework.Manifest.Merge.{
  RouteManifestMount, manifest_route_identity, try_merge_mounts, seed, add_mounts, add_routes,
  seen_get, declare, normalized_template_path, is_template_parameter, identity_eq,
}
use sdkwork_web_framework.Manifest.Tracking.{HasDistinctIds}
use sdkwork_web_framework.Manifest.Composition.{
  mounted, try_merge_mounts_sound, try_merge_mounts_complete,
}
use sdkwork_web_framework.Guards.ContextSelectors.Query.{}

abbrev by_id : HttpRoute
by_id =
    new HttpMethod.get (lit "/app/v3/api/items/{id}") (lit "items") (lit "items.get")
      RouteAuth.dual_token

abbrev mine : HttpRoute
mine =
    new HttpMethod.get (lit "/app/v3/api/items/mine") (lit "items") (lit "items.mine")
      RouteAuth.dual_token

abbrev created : HttpRoute
created =
    new HttpMethod.post (lit "/app/v3/api/items") (lit "items") (lit "items.create")
      RouteAuth.dual_token

abbrev bearer : HttpRoute
bearer =
    new HttpMethod.get (lit "/open/v3/api/x") (lit "x") (lit "x.get")
      RouteAuth.open_api_bearer_flexible

abbrev items : HttpRouteManifest
items = record { routes = by_id ∷ mine ∷ [] }

abbrev request : Str
request = lit "/app/v3/api/items/mine/"

match_route-IsSelected_example : IsSelected items (lit "get") request mine
unfolding lit str_eq trim trim_matches trim_start trim_end is_slash is_whitespace split split_from
    split_once contains starts_with ends_with new normalize_path path_segments position
    segment_has_parameters template_has_parameters is_full_parameter template_segment_matches
    segments_match route_path_matches upper_char to_ascii_uppercase http_method_label
    http_method_matches is_candidate match_route
match_route-IsSelected_example = match_route-IsSelected items (lit "get") request mine refl

match_route-literal_example :
    match_route (record { routes = (by_id ∷ []) ++ mine ∷ (created ∷ []) }) (lit "GET") request
    ≡ some mine
unfolding lit str_eq trim trim_matches trim_start trim_end is_slash is_whitespace split split_from
    split_once contains starts_with ends_with new normalize_path path_segments position
    segment_has_parameters template_has_parameters is_full_parameter template_segment_matches
    segments_match route_path_matches upper_char to_ascii_uppercase http_method_label
    http_method_matches is_candidate match_route
match_route-literal_example =
    match_route-literal (lit "GET") request (by_id ∷ []) (created ∷ []) mine refl refl
      ((λ h. refl), tt)

abbrev mount : RouteManifestMount
mount = record { owner = lit "shop"; manifest = record { routes = created ∷ [] } }

abbrev composed : HttpRouteManifest
composed = record { routes = by_id ∷ mine ∷ created ∷ [] }

try_merge_mounts_sound_example :
    (composed.routes ≡ items.routes ++ mounted (mount ∷ []))
    × HasDistinctIds composed.routes
    × All (λ x. is_blank x.owner ≡ false) (mount ∷ [])
unfolding lit str_eq trim trim_matches trim_start trim_end is_slash is_whitespace split split_from
    join starts_with ends_with new normalize_path http_method_label is_blank try_merge_mounts seed
    add_mounts add_routes seen_get declare manifest_route_identity normalized_template_path
    is_template_parameter identity_eq
try_merge_mounts_sound_example =
    try_merge_mounts_sound (lit "host") items (mount ∷ []) composed refl

try_merge_mounts_complete_example :
    try_merge_mounts (lit "host") items (mount ∷ [])
    ≡ ok (record { routes = items.routes ++ mounted (mount ∷ []) })
unfolding lit str_eq trim trim_matches trim_start trim_end is_slash is_whitespace split split_from
    join starts_with ends_with new normalize_path http_method_label is_blank try_merge_mounts seed
    add_mounts add_routes seen_get declare manifest_route_identity normalized_template_path
    is_template_parameter identity_eq
try_merge_mounts_complete_example =
    try_merge_mounts_complete (lit "host") items (mount ∷ []) try_merge_mounts_sound_example.1
      (refl, tt)

-- A JSON library that parses nothing.
abbrev no_json : Json
no_json = record {
  Value = Unit {0};
  from_str = λ s. err s;
  is_object = λ v. false;
  member = λ v k. none;
  as_str = λ v. none;
}

validate_route_auth_for_surfaces_iff_example :
    (validate_route_auth_for_surfaces no_json (λ s. s) default_profile items ≡ ok tt)
    ↔ All (Passes no_json (λ s. s) default_profile) items.routes
validate_route_auth_for_surfaces_iff_example =
    validate_route_auth_for_surfaces_iff no_json (λ s. s) default_profile items

bearer_flexible_rejected_example :
    validate_route_auth_for_surfaces no_json
      (λ s. s)
      default_profile
      (record { routes = bearer ∷ [] })
    ≢ ok tt
unfolding lit str_eq trim trim_matches trim_start trim_end is_slash is_whitespace starts_with new
    normalize_path matches_prefix classify_api_surface internal_api_prefix default_profile
bearer_flexible_rejected_example =
    bearer_flexible_rejected no_json (λ s. s) default_profile (record { routes = bearer ∷ [] })
      bearer (here refl) refl refl

-- /a/{b}/v{n}, and a path with a doubled slash
abbrev patterns : List Pattern
patterns = fixed (b'a' ∷ []) ∷ placeholder (b'b' ∷ []) ∷ between (b'v' ∷ []) (b'n' ∷ []) [] ∷ []

abbrev parts : List Str
parts = (b'a' ∷ []) ∷ (b'7' ∷ []) ∷ (b'v' ∷ b'2' ∷ []) ∷ []
