-- ===== src/Manifest/Composition.antt =====
-- What composing manifests establishes.
use mathlib.Core.List.{append-nil, append_assoc}
use sdkwork_web_framework.Base.{
  false, List, [], ◌∷◌, ◌++◌, ◌≡◌, refl, sym, ap, ◌∙◌, inl, inr, arith, All, ok, Bool-cases,
  Option-cases, Result-cases,
}
use sdkwork_web_framework.Base.Text.{Str}
use sdkwork_web_framework.Contract.{HttpRoute}
use sdkwork_web_framework.Contract.Validation.{is_blank}
use sdkwork_web_framework.Manifest.{HttpRouteManifest}
use sdkwork_web_framework.Manifest.Merge.{
  RouteManifestMount, manifest_route_identity, declare, seen_get, seed, Composed, add_routes,
  add_mounts, try_merge_mounts,
}
use sdkwork_web_framework.Manifest.Tracking.{
  HasDistinctIds, Tracks, Tracks-declare, HasDistinctIds-snoc, HasDistinctIds-Free,
  HasDistinctIds-prefix, snoc_append, seed_sound, seed_complete,
}

-- The routes of the mounts, in order.
abbrev pub mounted : List RouteManifestMount → List HttpRoute
mounted [] = []
mounted (m ∷ mounts) = m.manifest.routes ++ mounted mounts

-- what the loops over the mounts keep true
record IsTracked (c : Composed) : Type 0 where
  tracks : Tracks c.seen c.routes
  distinct : HasDistinctIds c.routes

add_routes_sound :
    (owner : Str) (routes : List HttpRoute) (c c' : Composed)
    → IsTracked c
    → add_routes owner routes c ≡ ok c'
    → IsTracked c' × (c'.routes ≡ c.routes ++ routes)
unfolding add_routes
add_routes_sound owner [] c c' t h =
    let same : c ≡ c' = cc h in rw (← same) (t, sym (append-nil c.routes))
add_routes_sound owner (r ∷ routes) c c' t h =
    elim (Option-cases (seen_get (manifest_route_identity r) c.seen)) [
      | inl fresh ↦
          let (t', e) =
            add_routes_sound owner routes
              (record { seen = declare owner r ∷ c.seen; routes = c.routes ++ r ∷ [] }) c'
              (record {
                tracks = Tracks-declare owner r c.seen c.routes t.tracks;
                distinct =
                    HasDistinctIds-snoc c.routes r t.distinct
                      ((t.tracks (manifest_route_identity r)).0 fresh);
              })
              (ground arith) in
          (t', e ∙ snoc_append c.routes r routes)
      | inr (x, found) ↦ absurd (ground arith)
    ]

add_routes_complete :
    (owner : Str) (routes : List HttpRoute) (c : Composed)
    → Tracks c.seen c.routes
    → HasDistinctIds (c.routes ++ routes)
    → (c' : Composed) × (add_routes owner routes c ≡ ok c')
      × Tracks c'.seen c'.routes
      × (c'.routes ≡ c.routes ++ routes)
unfolding add_routes
add_routes_complete owner [] c t d = (c, refl, t, sym (append-nil c.routes))
add_routes_complete owner (r ∷ routes) c t d =
    let fresh = (t (manifest_route_identity r)).1 (HasDistinctIds-Free c.routes r routes d) in
    let (c', e, t', same) =
      add_routes_complete owner routes
        (record { seen = declare owner r ∷ c.seen; routes = c.routes ++ r ∷ [] })
        (Tracks-declare owner r c.seen c.routes t) (rw (snoc_append c.routes r routes) d) in
    (c', ground arith, t', same ∙ snoc_append c.routes r routes)

add_mounts_sound :
    (mounts : List RouteManifestMount) (c c' : Composed)
    → IsTracked c
    → add_mounts mounts c ≡ ok c'
    → IsTracked c'
      × (c'.routes ≡ c.routes ++ mounted mounts)
      × All (λ m. is_blank m.owner ≡ false) mounts
unfolding add_mounts
add_mounts_sound [] c c' t h =
    let same : c ≡ c' = cc h in rw (← same) (t, sym (append-nil c.routes), tt)
add_mounts_sound (m ∷ mounts) c c' t h = elim (Bool-cases (is_blank m.owner)) [
  | inl blank ↦ absurd (ground arith)
  | inr named ↦ elim (Result-cases (add_routes m.owner m.manifest.routes c)) [
    | inl (d, added) ↦
        let (t', e) = add_routes_sound m.owner m.manifest.routes c d t added in
        let (t'', e', ns) = add_mounts_sound mounts d c' t' (ground arith) in
        (
          t'',
          e'
              ∙ ap (λ l. l ++ mounted mounts) e
              ∙ append_assoc c.routes m.manifest.routes (mounted mounts),
          (named, ns),
        )
    | inr (x, failed) ↦ absurd (ground arith)
  ]
]

add_mounts_complete :
    (mounts : List RouteManifestMount) (c : Composed)
    → Tracks c.seen c.routes
    → HasDistinctIds (c.routes ++ mounted mounts)
    → All (λ m. is_blank m.owner ≡ false) mounts
    → (c' : Composed) × (add_mounts mounts c ≡ ok c') × (c'.routes ≡ c.routes ++ mounted mounts)
unfolding add_mounts
add_mounts_complete [] c t d ns = (c, refl, sym (append-nil c.routes))
add_mounts_complete (m ∷ mounts) c t d (named, ns) =
    let d' = rw (← append_assoc c.routes m.manifest.routes (mounted mounts)) at d in
    let (c', e, t', same) =
      add_routes_complete m.owner m.manifest.routes c t
        (HasDistinctIds-prefix (c.routes ++ m.manifest.routes) (mounted mounts) d') in
    let (c'', e', same') = add_mounts_complete mounts c' t' (rw same d') ns in
    (
      c'',
      ground arith,
      same'
          ∙ ap (λ l. l ++ mounted mounts) same
          ∙ append_assoc c.routes m.manifest.routes (mounted mounts),
    )

no_routes : Tracks [] []
unfolding seen_get
no_routes k = (λ h. tt, λ h. refl)

-- Composition succeeds with exactly the host's routes followed by the mounts', in order, and then
-- no two of them have the same method and template, and every mount names its owner.
pub try_merge_mounts_sound :
    (owner : Str) (base : HttpRouteManifest) (mounts : List RouteManifestMount)
    (m : HttpRouteManifest)
    → try_merge_mounts owner base mounts ≡ ok m
    → (m.routes ≡ base.routes ++ mounted mounts)
      × HasDistinctIds m.routes
      × All (λ x. is_blank x.owner ≡ false) mounts
unfolding try_merge_mounts
try_merge_mounts_sound owner base mounts m h = elim (Result-cases (seed owner base.routes [])) [
  | inr (x, failed) ↦ absurd (ground arith)
  | inl (seen, seeded) ↦
      let start : Composed = record { seen = seen; routes = base.routes } in
      elim (Result-cases (add_mounts mounts start)) [
        | inr (x, failed) ↦ absurd (ground arith)
        | inl (c, added) ↦
            let (tracks, distinct) = seed_sound owner base.routes [] [] seen no_routes tt seeded in
            let (t, e, ns) =
              add_mounts_sound mounts start c (record { tracks = tracks; distinct = distinct })
                added in
            let same : c.routes ≡ m.routes = ground arith in
            (rw (← same) e, rw (← same) t.distinct, ns)
      ]
]

-- Composition succeeds, with all the routes in order, whenever no two of the host's and the mounts'
-- routes have the same method and template and every mount names its owner.
pub try_merge_mounts_complete :
    (owner : Str) (base : HttpRouteManifest) (mounts : List RouteManifestMount)
    → HasDistinctIds (base.routes ++ mounted mounts)
    → All (λ x. is_blank x.owner ≡ false) mounts
    → try_merge_mounts owner base mounts ≡ ok (record { routes = base.routes ++ mounted mounts })
unfolding try_merge_mounts
try_merge_mounts_complete owner base mounts d ns =
    let (seen, seeded, tracks) =
      seed_complete owner base.routes [] [] no_routes
        (HasDistinctIds-prefix base.routes (mounted mounts) d) in
    let (c, added, same) =
      add_mounts_complete mounts (record { seen = seen; routes = base.routes }) tracks d ns in
    ground arith
