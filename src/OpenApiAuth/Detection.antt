-- ===== src/OpenApiAuth/Detection.antt =====
-- What the default detector of open-api credentials answers.
use sdkwork_web_framework.Base.{
  true, false, Option, none, some, List, [], ◌∷◌, any, is_empty, find, ◌≡◌, refl, arith, Result, ok,
  err, Bool-cases, Option-cases, ◌&&◌, inl, inr,
}
use sdkwork_web_framework.Base.Lists.Laws.{find-eq-some}
use sdkwork_web_framework.Contract.{RouteAuth}
use sdkwork_web_framework.Errors.{WebFrameworkError}
use sdkwork_web_framework.OpenApiAuth.{
  OpenApiAuthScheme, api_key_scheme, oauth_bearer_scheme, Presence, detect_profile, detect_flexible,
  detect_api_key, detect_oauth, detect_key_or_dual, detect_dual_token, detect_bearer_flexible,
  scheme_eq, allowed_open_api_schemes,
}

-- The detected scheme, if there is one, is among the given ones.
abbrev pub Within :
    List OpenApiAuthScheme → Result (Option OpenApiAuthScheme) WebFrameworkError → Type 0
Within schemes (err e) = Unit
Within schemes (ok none) = Unit
Within schemes (ok (some s)) = any (scheme_eq s) schemes ≡ true

-- the profiles whose schemes the table lists
abbrev pub HasSchemes : RouteAuth → Type 0
HasSchemes auth = is_empty (allowed_open_api_schemes auth) ≡ false

preferred-Within :
    (preference : List OpenApiAuthScheme) (p : Presence)
    → Within (api_key_scheme ∷ oauth_bearer_scheme ∷ []) (ok (detect_flexible preference p))
unfolding detect_flexible scheme_eq
preferred-Within preference p = elim (Bool-cases (p.api_key && p.oauth)) [
  | inl both ↦
      rw (detect_flexible, both)
        (elim (Option-cases (
          find (λ preferred. any (scheme_eq preferred) (api_key_scheme ∷ oauth_bearer_scheme ∷ []))
            preference)) [
              | inl absent ↦ rw absent refl
              | inr (s, found) ↦
                  let (before, behind, listed, passes, earlier) = find-eq-some _ preference found in
                  rw found passes
            ])
  | inr single ↦ rw (detect_flexible, single) (ground arith)
]

-- A profile that admits schemes on open-api never has another scheme detected: whatever
-- credentials are present and whatever the preference is, the default detector answers a scheme of
-- `allowed_open_api_schemes`, or nothing, or an error.
pub detect-Within :
    (preference : List OpenApiAuthScheme) (auth : RouteAuth) (p : Presence)
    → HasSchemes auth
    → Within (allowed_open_api_schemes auth) (detect_profile preference (some auth) p)
unfolding detect_profile allowed_open_api_schemes scheme_eq detect_api_key detect_oauth
    detect_key_or_dual detect_dual_token detect_bearer_flexible
detect-Within preference RouteAuth.api_key p h = ground arith
detect-Within preference RouteAuth.oauth p h = ground arith
detect-Within preference RouteAuth.api_key_or_dual_token p h = ground arith
detect-Within preference RouteAuth.dual_token_or_anonymous p h = ground arith
detect-Within preference RouteAuth.open_api_bearer_flexible p h = ground arith
detect-Within preference RouteAuth.open_api_flexible p h = preferred-Within preference p
detect-Within preference _ p h = cc h
