-- ===== src/Manifest.antt =====
-- crates/sdkwork-web-core/src/route_manifest.rs: path templates, and the selection of a route.
-- Validation and composition of manifests are in the child modules.
pub mod Selection
pub mod Template
pub mod Segments
pub mod Patterns
pub mod Validation
pub mod Accepted
pub mod Merge
pub mod Tracking
pub mod Composition
use Prim.Native.Nat.{ℕ}
use sdkwork_web_framework.Base.{
  ◌+◌, ◌-◌, Bool, true, false, not, ◌&&◌, ◌||◌, Option, none, some, List, [], ◌∷◌, if◌then◌else◌,
  ltb, ◌==◌, is_empty, is_some, any, all, find, filter, length, and_then,
}
use sdkwork_web_framework.Base.Text.{
  Str, lit, str_eq, trim_matches, is_slash, split, starts_with, ends_with, contains, split_once,
  to_ascii_uppercase,
}
use sdkwork_web_framework.Contract.{
  HttpMethod, HttpRoute, RateLimitTier, is_anonymous, skips_credential_resolution,
}
use sdkwork_web_framework.Surface.{normalize_path}

pub record HttpRouteManifest : Type 0 where
  pub routes : List HttpRoute

unfoldable pub path_segments : Str → List Str
path_segments path =
    filter (λ s. not (is_empty s)) (split b'/' (trim_matches is_slash (normalize_path path)))

-- `find(d)` on a segment: how many characters precede the first `d`
unfoldable pub position : ℕ → Str → Option ℕ
position d s = elim (split_once d s) [ none ↦ none | some (before, after) ↦ some (length before) ]

unfoldable pub segment_has_parameters : Str → Bool
unfolding position
segment_has_parameters segment = elim (position b'{' segment) [
  | none ↦ false
  | some start ↦ elim (position b'}' segment) [ none ↦ false | some end ↦ ltb (start + 1) end ]
]

unfoldable pub template_has_parameters : Str → Bool
unfolding segment_has_parameters
template_has_parameters path = any segment_has_parameters (path_segments path)

-- `{param}`, the whole segment
unfoldable pub is_full_parameter : Str → Bool
is_full_parameter template = starts_with (b'{' ∷ []) template && ends_with (b'}' ∷ []) template

-- Where a prefix and a suffix both fit, the lengths in bytes and in code points compare alike.
unfoldable pub template_segment_matches : Str → Str → Bool
unfolding is_full_parameter
template_segment_matches template actual =
    if is_full_parameter template then not (is_empty actual) else elim (split_once b'{' template) [
      | none ↦ str_eq template actual
      | some (prefix, rest) ↦ elim (split_once b'}' rest) [
        | none ↦ str_eq template actual
        | some (name, suffix) ↦
            if contains (b'{' ∷ []) suffix
            then str_eq template actual
            else ltb (length prefix + length suffix) (length actual)
              && starts_with prefix actual
              && ends_with suffix actual
      ]
    ]

-- the two length tests and the `zip(…).all(…)`
unfoldable pub segments_match : List Str → List Str → Bool
segments_match [] [] = true
segments_match [] (a ∷ as') = false
segments_match (t ∷ ts) [] = false
segments_match (t ∷ ts) (a ∷ as') = template_segment_matches t a && segments_match ts as'

unfoldable pub route_path_matches : Str → Str → Bool
route_path_matches manifest_path request_path =
    segments_match (path_segments manifest_path) (path_segments request_path)

unfoldable pub http_method_label : HttpMethod → Str
http_method_label HttpMethod.get = lit "GET"
http_method_label HttpMethod.post = lit "POST"
http_method_label HttpMethod.put = lit "PUT"
http_method_label HttpMethod.patch = lit "PATCH"
http_method_label HttpMethod.delete = lit "DELETE"

-- `(route_method, upper)` is one of the five pairs of a method and its label.
unfoldable pub http_method_matches : HttpMethod → Str → Bool
http_method_matches route_method method =
    str_eq (to_ascii_uppercase method) (http_method_label route_method)

-- the closure `is_candidate` of `match_route`
unfoldable pub is_candidate : Str → Str → HttpRoute → Bool
is_candidate method path route =
    http_method_matches route.method method && route_path_matches route.path (normalize_path path)

unfoldable pub match_route : HttpRouteManifest → Str → Str → Option HttpRoute
match_route manifest method path =
    elim (find (λ route. is_candidate method path route && not (template_has_parameters route.path))
      manifest.routes) [
        | some route ↦ some route
        | none ↦ find (is_candidate method path) manifest.routes
      ]

unfoldable pub rate_limit_tier_for : HttpRouteManifest → Str → Str → Option RateLimitTier
rate_limit_tier_for manifest method path =
    and_then (match_route manifest method path) (λ route. route.rate_limit_tier)

unfoldable pub is_public_route : HttpRouteManifest → Str → Str → Bool
is_public_route manifest method path = elim (match_route manifest method path) [
  | none ↦ false
  | some route ↦ is_anonymous route.auth
]

unfoldable pub public_routes : HttpRouteManifest → List HttpRoute
public_routes manifest = filter (λ route. is_anonymous route.auth) manifest.routes
