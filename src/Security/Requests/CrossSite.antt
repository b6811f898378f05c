-- ===== src/Security/Requests/CrossSite.antt =====
-- What the guard against cross-site requests lets through.
use sdkwork_web_framework.Base.{
  Bool, true, some, ◌≡◌, Bool-cases, Option-cases, inl, inr, Result, ok, err, ◌>>◌,
}
use sdkwork_web_framework.Base.Text.{Str, lit}
use sdkwork_web_framework.Errors.{WebFrameworkError}
use sdkwork_web_framework.Http.{HeaderMap, HttpLibrary, Request, contains_key}
use sdkwork_web_framework.Security.{CorsPolicy, CrossSiteRequestPolicy}
use sdkwork_web_framework.Security.Cors.{allows_origin, validate_origin_value}
use sdkwork_web_framework.Security.Requests.{
  is_state_changing_method, cookie_origin, validate_cookie_authenticated_source,
  validate_cross_site_request_with_cors,
}

module _ (library : HttpLibrary) where
  source-allowed :
      (cors : CorsPolicy) (headers : HeaderMap)
      → validate_cookie_authenticated_source library cors headers ≡ ok tt
      → (origin : Str) × (cookie_origin headers ≡ some origin)
        × (allows_origin library cors origin ≡ true)
  unfolding validate_cookie_authenticated_source validate_origin_value
  source-allowed cors headers h = elim (Option-cases (cookie_origin headers)) [
    | inl absent ↦ cc (rw (validate_cookie_authenticated_source, absent) at h)
    | inr (origin, given) ↦ elim (Bool-cases (allows_origin library cors origin)) [
      | inl allowed ↦ (origin, given, allowed)
      | inr denied ↦
          cc (rw (validate_cookie_authenticated_source, given, validate_origin_value, denied) at h)
    ]
  ]

  second-ok :
      (first second : Result (Unit {0}) WebFrameworkError)
      → (first >> second) ≡ ok tt
      → second ≡ ok tt
  second-ok (ok u) second h = h
  second-ok (err e) second h = cc h

  -- A state-changing request with a cookie passes, where the policy guards cookies, only if its
  -- Origin header, or else the origin of its Referer, is there and is admitted: whether or not the
  -- path is public, and whichever of the two switches is on besides.
  pub cookie_request-allowed :
      (cross_site : CrossSiteRequestPolicy) (cors : CorsPolicy) (request : Request)
      (public_path : Bool)
      → cross_site.reject_cookie_auth_without_origin ≡ true
      → is_state_changing_method request.method ≡ true
      → contains_key request.headers (lit "cookie") ≡ true
      → validate_cross_site_request_with_cors library cross_site cors request public_path ≡ ok tt
      → (origin : Str) × (cookie_origin request.headers ≡ some origin)
        × (allows_origin library cors origin ≡ true)
  unfolding validate_cross_site_request_with_cors
  cookie_request-allowed cross_site cors request public_path guarded changing cookie passed =
      source-allowed cors request.headers
        (elim (Bool-cases cross_site.reject_untrusted_state_changing_origins) [
          | inl on ↦
              second-ok _ _ (
                rw (validate_cross_site_request_with_cors, on, guarded, changing, cookie) at passed)
          | inr off ↦
              rw (validate_cross_site_request_with_cors, off, guarded, changing, cookie) at passed
        ])
