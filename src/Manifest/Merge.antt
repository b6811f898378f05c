-- ===== src/Manifest/Merge.antt =====
-- crates/sdkwork-web-core/src/route_manifest.rs: composing a host's manifest with those of its
-- dependencies.
use sdkwork_web_framework.Base.{
  Bool, not, ◌&&◌, ◌||◌, Option, none, some, List, [], ◌∷◌, ◌++◌, map, if◌then◌else◌, Result, ok,
  err, ◌>>=◌, ◌>>◌,
}
use sdkwork_web_framework.Base.Text.{Str, lit, str_eq, split, join, starts_with, ends_with}
use sdkwork_web_framework.Contract.{HttpRoute, RouteAuth, auth_eq}
use sdkwork_web_framework.Contract.Validation.{is_blank}
use sdkwork_web_framework.Surface.{normalize_path}
use sdkwork_web_framework.Manifest.{HttpRouteManifest, http_method_label, match_route}

pub record RouteManifestMount : Type 0 where
  pub owner : Str
  pub manifest : HttpRouteManifest

-- a segment that some router syntax reads as a parameter
unfoldable pub is_template_parameter : Str → Bool
is_template_parameter segment =
    (starts_with (b'{' ∷ []) segment && ends_with (b'}' ∷ []) segment)
    || starts_with (b':' ∷ []) segment
    || (starts_with (b'<' ∷ []) segment && ends_with (b'>' ∷ []) segment)

unfoldable pub normalized_template_path : Str → Str
normalized_template_path path = join b'/' (
    map (λ segment. if is_template_parameter segment then lit "{}" else segment)
      (split b'/' (normalize_path path)))

-- the pair of `manifest_route_identity`
pub record RouteIdentity : Type 0 where
  pub method : Str
  pub template : Str

unfoldable pub manifest_route_identity : HttpRoute → RouteIdentity
manifest_route_identity route = record {
  method = http_method_label route.method;
  template = normalized_template_path route.path;
}

unfoldable pub identity_eq : RouteIdentity → RouteIdentity → Bool
identity_eq a b = str_eq a.method b.method && str_eq a.template b.template

-- A value of the map `seen`: who declared the route, and its operation.
pub record Declared : Type 0 where
  pub key : RouteIdentity
  pub owner : Str
  pub operation : Str

-- `seen.get(&key)`; only keys that are not there are inserted, at the front.
unfoldable pub seen_get : RouteIdentity → List Declared → Option Declared
seen_get key [] = none
seen_get key (d ∷ seen) =
    let rest = seen_get key seen in if identity_eq d.key key then some d else rest

unfoldable pub declare : Str → HttpRoute → Declared
declare owner route = record {
  key = manifest_route_identity route;
  owner = owner;
  operation = route.operation_id;
}

-- `{method} {template}` of the messages
unfoldable pub identity_label : RouteIdentity → Str
identity_label key = key.method ++ lit " " ++ key.template

-- the loop over the routes of the host
unfoldable pub seed : Str → List HttpRoute → List Declared → Result (List Declared) Str
seed owner [] seen = ok seen
seed owner (route ∷ routes) seen =
    let rest = seed owner routes (declare owner route ∷ seen) in
    elim (seen_get (manifest_route_identity route) seen) [
      | none ↦ rest
      | some existing ↦ err (
          owner
          ++ lit " base route collision for "
          ++ identity_label (manifest_route_identity route)
          ++ lit " between "
          ++ existing.operation
          ++ lit " and "
          ++ route.operation_id)
    ]

-- What the loops over the mounts carry.
pub record Composed : Type 0 where
  pub seen : List Declared
  pub routes : List HttpRoute

-- the loop over the routes of one mount
unfoldable pub add_routes : Str → List HttpRoute → Composed → Result Composed Str
add_routes owner [] c = ok c
add_routes owner (route ∷ routes) c =
    let rest =
      add_routes owner routes
        (record { seen = declare owner route ∷ c.seen; routes = c.routes ++ route ∷ [] }) in
    elim (seen_get (manifest_route_identity route) c.seen) [
      | none ↦ rest
      | some existing ↦ err (
          lit "composed route collision for "
          ++ identity_label (manifest_route_identity route)
          ++ lit ": "
          ++ owner
          ++ lit " ("
          ++ route.operation_id
          ++ lit ") conflicts with "
          ++ existing.owner
          ++ lit " ("
          ++ existing.operation
          ++ lit ")")
    ]

-- the loop over the mounts
unfoldable pub add_mounts : List RouteManifestMount → Composed → Result Composed Str
unfolding add_routes
add_mounts [] c = ok c
add_mounts (mount ∷ mounts) c =
    if is_blank mount.owner
    then err (lit "route manifest mount owner must not be empty")
    else (add_routes mount.owner mount.manifest.routes c >>= λ c'. add_mounts mounts c')

unfoldable pub try_merge_mounts :
    Str → HttpRouteManifest → List RouteManifestMount → Result HttpRouteManifest Str
try_merge_mounts owner base mounts = do
  seen ← seed owner base.routes []
  c ← add_mounts mounts (record { seen = seen; routes = base.routes })
  ok (record { routes = c.routes })

-- the text that `{:?}` prints for a `RouteAuth`
module _ (debug_auth : RouteAuth → Str) where
  -- the inner loop, over the routes of one mount
  unfoldable pub includes_routes : HttpRouteManifest → Str → List HttpRoute → Result (Unit {0}) Str
  includes_routes manifest owner [] = ok tt
  includes_routes manifest owner (route ∷ routes) =
      let rest = includes_routes manifest owner routes in
      let method = http_method_label route.method in
      elim (match_route manifest method route.path) [
        | none ↦ err (
            lit "composed manifest missing dependency route from "
            ++ owner
            ++ lit ": "
            ++ method
            ++ lit " "
            ++ route.path
            ++ lit " ("
            ++ route.operation_id
            ++ lit ")")
        | some composed ↦
            if not (auth_eq composed.auth route.auth)
            then err (
                lit "composed manifest auth mismatch for "
                ++ owner
                ++ lit " route "
                ++ method
                ++ lit " "
                ++ route.path
                ++ lit ": "
                ++ route.operation_id
                ++ lit " declares "
                ++ debug_auth route.auth
                ++ lit ", composed has "
                ++ debug_auth composed.auth)
            else rest
      ]

  -- the outer loop, over the mounts
  unfoldable pub validate_includes_dependency_manifests :
      HttpRouteManifest → List RouteManifestMount → Result (Unit {0}) Str
  unfolding includes_routes
  validate_includes_dependency_manifests manifest [] = ok tt
  validate_includes_dependency_manifests manifest (mount ∷ mounts) =
      let rest = validate_includes_dependency_manifests manifest mounts in
      includes_routes manifest mount.owner mount.manifest.routes >> rest
