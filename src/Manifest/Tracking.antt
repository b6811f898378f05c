-- ===== src/Manifest/Tracking.antt =====
-- The identities that the loops of `try_merge_mounts` keep, against the routes they have taken.
use mathlib.Core.List.{append-nil, append_assoc}
use sdkwork_web_framework.Base.{
  true, none, List, [], ◌∷◌, ◌++◌, ◌≡◌, ◌≢◌, refl, sym, ◌↔◌, inl, inr, arith, All, ok, Option-cases,
}
use sdkwork_web_framework.Base.Lists.Laws.{All-append, All-of-append}
use sdkwork_web_framework.Base.Text.{Str}
use sdkwork_web_framework.Base.Text.Laws.{str_eq_iff}
use sdkwork_web_framework.Contract.{HttpRoute}
use sdkwork_web_framework.Manifest.Merge.{
  RouteIdentity, manifest_route_identity, identity_eq, Declared, declare, seen_get, seed,
}

pub identity_eq_iff : (a b : RouteIdentity) → (identity_eq a b ≡ true) ↔ (a ≡ b)
unfolding identity_eq
identity_eq_iff a b = ground (arith, str_eq_iff a.method b.method, str_eq_iff a.template b.template)

-- No two routes of the list have the same method and the same template up to parameter names.
abbrev pub HasDistinctIds : List HttpRoute → Type 0
HasDistinctIds [] = Unit
HasDistinctIds (r ∷ routes) =
    All (λ q. manifest_route_identity q ≢ manifest_route_identity r) routes × HasDistinctIds routes

-- no route of the list has the identity
abbrev pub Free : RouteIdentity → List HttpRoute → Type 0
Free k routes = All (λ q. manifest_route_identity q ≢ k) routes

-- `seen` holds the identities of the routes, and no others.
abbrev pub Tracks : List Declared → List HttpRoute → Type 0
Tracks seen routes = (k : RouteIdentity) → (seen_get k seen ≡ none) ↔ Free k routes

pub Tracks-declare :
    (owner : Str) (r : HttpRoute) (seen : List Declared) (routes : List HttpRoute)
    → Tracks seen routes
    → Tracks (declare owner r ∷ seen) (routes ++ r ∷ [])
unfolding seen_get declare
Tracks-declare owner r seen routes t k = (
  λ h.
      All-append (λ q. manifest_route_identity q ≢ k) routes (r ∷ [])
        ((t k).0 (ground (arith, identity_eq_iff (manifest_route_identity r) k)))
        (ground (arith, identity_eq_iff (manifest_route_identity r) k), tt),
  λ h.
      let (before, last) = All-of-append (λ q. manifest_route_identity q ≢ k) routes (r ∷ []) h in
      ground (arith, identity_eq_iff (manifest_route_identity r) k, (t k).1 before, last.0),
)

pub HasDistinctIds-snoc :
    (routes : List HttpRoute) (r : HttpRoute)
    → HasDistinctIds routes
    → Free (manifest_route_identity r) routes
    → HasDistinctIds (routes ++ r ∷ [])
HasDistinctIds-snoc [] r d f = (tt, tt)
HasDistinctIds-snoc (q ∷ routes) r d f = (
  All-append (λ x. manifest_route_identity x ≢ manifest_route_identity q) routes (r ∷ []) d.0
      ((λ e. f.0 (sym e)), tt),
  HasDistinctIds-snoc routes r d.1 f.1,
)

pub HasDistinctIds-Free :
    (pre : List HttpRoute) (r : HttpRoute) (post : List HttpRoute)
    → HasDistinctIds (pre ++ r ∷ post)
    → Free (manifest_route_identity r) pre
HasDistinctIds-Free [] r post d = tt
HasDistinctIds-Free (q ∷ pre) r post d =
    let (before, at) =
      All-of-append (λ x. manifest_route_identity x ≢ manifest_route_identity q) pre (r ∷ post)
        d.0 in
    ((λ e. at.0 (sym e)), HasDistinctIds-Free pre r post d.1)

pub HasDistinctIds-prefix : (xs ys : List HttpRoute) → HasDistinctIds (xs ++ ys) → HasDistinctIds xs
HasDistinctIds-prefix [] ys d = tt
HasDistinctIds-prefix (x ∷ xs) ys d = (
  (All-of-append (λ q. manifest_route_identity q ≢ manifest_route_identity x) xs ys d.0).0,
  HasDistinctIds-prefix xs ys d.1,
)

pub snoc_append :
    (pre : List HttpRoute) (r : HttpRoute) (post : List HttpRoute)
    → (pre ++ r ∷ []) ++ post ≡ pre ++ (r ∷ post)
snoc_append pre r post = append_assoc pre (r ∷ []) post

-- The two loops do the same: each route that is not seen yet is declared.
module _ (owner : Str) where
  pub seed_sound :
      (routes pre : List HttpRoute) (seen seen' : List Declared)
      → Tracks seen pre
      → HasDistinctIds pre
      → seed owner routes seen ≡ ok seen'
      → Tracks seen' (pre ++ routes) × HasDistinctIds (pre ++ routes)
  unfolding seed
  seed_sound [] pre seen seen' t d h =
      let same : seen ≡ seen' = cc h in rw (append-nil pre, ← same) (t, d)
  seed_sound (r ∷ routes) pre seen seen' t d h =
      elim (Option-cases (seen_get (manifest_route_identity r) seen)) [
        | inl fresh ↦ rw (← snoc_append pre r routes) (
            seed_sound routes (pre ++ r ∷ []) (declare owner r ∷ seen) seen'
              (Tracks-declare owner r seen pre t)
              (HasDistinctIds-snoc pre r d ((t (manifest_route_identity r)).0 fresh))
              (ground arith))
        | inr (x, found) ↦ absurd (ground arith)
      ]

  pub seed_complete :
      (routes pre : List HttpRoute) (seen : List Declared)
      → Tracks seen pre
      → HasDistinctIds (pre ++ routes)
      → (seen' : List Declared) × (seed owner routes seen ≡ ok seen') × Tracks seen' (pre ++ routes)
  unfolding seed
  seed_complete [] pre seen t d = (seen, refl, rw (append-nil pre) t)
  seed_complete (r ∷ routes) pre seen t d =
      let fresh = (t (manifest_route_identity r)).1 (HasDistinctIds-Free pre r routes d) in
      let (seen', e, t') =
        seed_complete routes (pre ++ r ∷ []) (declare owner r ∷ seen)
          (Tracks-declare owner r seen pre t) (rw (snoc_append pre r routes) d) in
      (seen', ground arith, rw (← snoc_append pre r routes) t')
