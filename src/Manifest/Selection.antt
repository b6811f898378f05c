-- ===== src/Manifest/Selection.antt =====
-- What `HttpRouteManifest::match_route` returns.
use sdkwork_web_framework.Base.{
  Bool, true, false, not, ◌&&◌, none, some, List, ◌∷◌, ◌++◌, ◌≡◌, refl, ◌↔◌, inl, inr, arith, find,
  All, Any, and_iff, Option-cases,
}
use sdkwork_web_framework.Base.Lists.Laws.{
  find-eq-some, find-eq-none, find-none, find-append, All-map, Any-append,
}
use sdkwork_web_framework.Base.Text.{Str}
use sdkwork_web_framework.Contract.{HttpRoute}
use sdkwork_web_framework.Surface.{normalize_path}
use sdkwork_web_framework.Manifest.{
  HttpRouteManifest, http_method_matches, route_path_matches, is_candidate, match_route,
  template_has_parameters,
}

-- `r` is a listed route for the method and the path, and no listed candidate has a literal
-- template unless `r` has one.
pub record IsSelected (manifest : HttpRouteManifest) (method path : Str) (r : HttpRoute)
    : Type 0 where
  pub listed : Any (λ x. x ≡ r) manifest.routes
  pub method_fits : http_method_matches r.method method ≡ true
  pub path_fits : route_path_matches r.path (normalize_path path) ≡ true
  pub literal_first :
      template_has_parameters r.path ≡ true
      → All
          (λ x. is_candidate method path x ≡ true → template_has_parameters x.path ≡ true)
          manifest.routes

module _ (method path : Str) where
  is_literal_candidate : HttpRoute → Bool
  is_literal_candidate r = is_candidate method path r && not (template_has_parameters r.path)

  no_literal :
      (r : HttpRoute)
      → is_literal_candidate r ≡ false
      → is_candidate method path r ≡ true
      → template_has_parameters r.path ≡ true
  unfolding is_literal_candidate
  no_literal r h c = ground arith

  selected :
      (manifest : HttpRouteManifest) (r : HttpRoute) (pre post : List HttpRoute)
      → manifest.routes ≡ pre ++ r ∷ post
      → is_candidate method path r ≡ true
      → (template_has_parameters r.path ≡ true
          → All
              (λ x. is_candidate method path x ≡ true → template_has_parameters x.path ≡ true)
              manifest.routes)
      → IsSelected manifest method path r
  unfolding is_candidate
  selected manifest r pre post e c h =
      let (m, p) = (and_iff _ _).0 c in
      record {
        listed = rw e (Any-append _ pre r post refl);
        method_fits = m;
        path_fits = p;
        literal_first = h;
      }

-- A returned route is listed, has the request's method, matches its path, and is parameterised
-- only if every candidate is.
pub match_route-IsSelected :
    (manifest : HttpRouteManifest) (method path : Str) (r : HttpRoute)
    → match_route manifest method path ≡ some r
    → IsSelected manifest method path r
unfolding match_route is_literal_candidate
match_route-IsSelected manifest method path r h =
    elim (Option-cases (find (is_literal_candidate method path) manifest.routes)) [
      | inl missed ↦
          let (pre, post, e, c, before) =
            find-eq-some (is_candidate method path) manifest.routes (ground (arith)) in
          selected method path manifest r pre post e c (λ p.
            All-map manifest.routes (no_literal method path)
              (find-eq-none (is_literal_candidate method path) manifest.routes missed))
      | inr (x, found) ↦
          let (pre, post, e, c, before) =
            find-eq-some (is_literal_candidate method path) manifest.routes found in
          let same : x ≡ r = ground arith in
          let (cand, literal) = (and_iff _ _).0 c in
          selected method path manifest r pre post (rw (← same) e) (rw (← same) cand)
            (λ p. ground arith)
    ]

-- No route is returned exactly when no listed route is a candidate.
pub match_route-eq-none_iff :
    (manifest : HttpRouteManifest) (method path : Str)
    → (match_route manifest method path ≡ none)
      ↔ All (λ r. is_candidate method path r ≡ false) manifest.routes
unfolding match_route is_literal_candidate
match_route-eq-none_iff manifest method path = (
  λ h. find-eq-none (is_candidate method path) manifest.routes (ground arith),
  λ h.
      let missed : find (is_literal_candidate method path) manifest.routes ≡ none =
        find-none (is_literal_candidate method path) manifest.routes
          (All-map manifest.routes (λ r f. ground arith) h) in
      let missed' = find-none (is_candidate method path) manifest.routes h in ground arith,
)

-- A literal route that matches is returned wherever it stands, if no other literal candidate
-- stands before it: parameterised routes before or after it make no difference.
pub match_route-literal :
    (method path : Str) (pre post : List HttpRoute) (r : HttpRoute)
    → is_candidate method path r ≡ true
    → template_has_parameters r.path ≡ false
    → All (λ x. is_candidate method path x ≡ true → template_has_parameters x.path ≡ true) pre
    → match_route (record { routes = pre ++ r ∷ post }) method path ≡ some r
unfolding match_route is_literal_candidate
match_route-literal method path pre post r c l h =
    let found : find (is_literal_candidate method path) (pre ++ r ∷ post) ≡ some r =
      find-append (is_literal_candidate method path) pre post (All-map pre (λ x f. ground arith) h)
        (ground arith) in
    ground arith
