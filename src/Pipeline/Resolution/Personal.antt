-- ===== src/Pipeline/Resolution/Personal.antt =====
-- Which steps of a resolution leave a principal in the state.
use sdkwork_web_framework.Base.{
  Bool, true, false, not, Option, is_some, if◌then◌else◌, ◌≡◌, refl, Result, ok, err, ◌>>=◌,
}
use sdkwork_web_framework.Base.Text.{Str}
use sdkwork_web_framework.Contract.{RouteAuth}
use sdkwork_web_framework.Errors.{WebFrameworkError}
use sdkwork_web_framework.Http.{HeaderMap}
use sdkwork_web_framework.OpenApiAuth.{
  Resolver, Detector, Classifier, WebCallCredentials, OpenApiAuthScheme, OpenApiCredentialKind,
  api_key_kind, auth_token_kind, resolve_open_api_bearer_flexible, resolve_open_api_request_context,
  resolve_scheme,
}
use sdkwork_web_framework.Pipeline.State.{WebCallState}
use sdkwork_web_framework.Pipeline.Resolution.{Step, refuse, settle, tagged}
use sdkwork_web_framework.Principal.{WebRequestPrincipal}
use sdkwork_web_framework.Principal.Context.{WebAuthMode}

-- The modes without a principal.
abbrev pub is_anonymous_mode : WebAuthMode → Bool
is_anonymous_mode WebAuthMode.public = true
is_anonymous_mode WebAuthMode.bootstrap_body = true
is_anonymous_mode WebAuthMode.refresh_token = true
is_anonymous_mode _ = false

-- A step that succeeds leaves a principal exactly where the mode asks for one.
abbrev pub IsConsistent : Step → Type 0
IsConsistent step =
    step.1 ≡ ok tt → is_some step.0.principal ≡ not (is_anonymous_mode step.0.auth_mode)

-- What is resolved to a principal has a mode that asks for one.
unfoldable pub Personal : Result (WebAuthMode × WebRequestPrincipal) WebFrameworkError → Type 0
Personal (ok (mode, principal)) = is_anonymous_mode mode ≡ false
Personal (err e) = Unit

pub Personal-settle :
    (state : WebCallState) (r : Result (WebAuthMode × WebRequestPrincipal) WebFrameworkError)
    → Personal r
    → IsConsistent (settle state r)
unfolding settle Personal
Personal-settle state (ok (mode, principal)) h e = rw h refl
Personal-settle state (err error) h e = cc e

pub Personal-tagged :
    (mode : WebAuthMode) (r : Result WebRequestPrincipal WebFrameworkError)
    → is_anonymous_mode mode ≡ false
    → Personal (tagged mode r)
unfolding tagged Personal
Personal-tagged mode (ok principal) h = h
Personal-tagged mode (err e) h = tt

pub Personal-bind :
    {A : Type 0} (r : Result A WebFrameworkError)
    (f : A → Result (WebAuthMode × WebRequestPrincipal) WebFrameworkError)
    → ((a : A) → Personal (f a))
    → Personal (r >>= f)
unfolding Personal
Personal-bind (ok a) f h = h a
Personal-bind (err e) f h = tt

pub Personal-pair :
    (mode : WebAuthMode) (r : Result WebRequestPrincipal WebFrameworkError)
    → is_anonymous_mode mode ≡ false
    → Personal (r >>= λ principal. ok (mode, principal))
unfolding Personal
Personal-pair mode (ok principal) h = h
Personal-pair mode (err e) h = tt

pub if-IsConsistent :
    (b : Bool) (x y : Step) → IsConsistent x → IsConsistent y → IsConsistent (if b then x else y)
if-IsConsistent true x y h k = h
if-IsConsistent false x y h k = k

pub ruleset personal = (Personal-bind, Personal-tagged, Personal-pair, refl)

pub refuse-IsConsistent :
    (state : WebCallState) (e : WebFrameworkError) → IsConsistent (refuse state e)
unfolding refuse
refuse-IsConsistent state e h = cc h

pub resolve_scheme-Personal :
    (credentials : WebCallCredentials) (inner : Resolver) (scheme : OpenApiAuthScheme)
    → Personal (resolve_scheme credentials inner scheme)
unfolding resolve_scheme
resolve_scheme-Personal credentials inner OpenApiAuthScheme.api_key_scheme = search personal
resolve_scheme-Personal credentials inner OpenApiAuthScheme.oauth_bearer_scheme = search personal
resolve_scheme-Personal credentials inner OpenApiAuthScheme.dual_token_scheme = search personal

-- a configured detector decides the scheme, never the mode
pub resolve_open_api-Personal :
    (credentials : WebCallCredentials) (headers : HeaderMap) (auth : Option RouteAuth)
    (detector : Detector) (inner : Resolver)
    → Personal (resolve_open_api_request_context credentials headers auth detector inner)
unfolding resolve_open_api_request_context
resolve_open_api-Personal credentials headers auth detector inner =
    search (personal, resolve_scheme-Personal)

pub classified-Personal :
    (inner : Resolver) (raw : Str) (kind : OpenApiCredentialKind)
    → Personal (elim kind [
      | api_key_kind ↦
          inner.resolve_api_key raw >>= λ principal. ok (WebAuthMode.api_key, principal)
      | auth_token_kind ↦
          inner.resolve_bearer_auth_token raw >>= λ principal. ok (WebAuthMode.oauth, principal)
    ])
classified-Personal inner raw api_key_kind =
    Personal-pair WebAuthMode.api_key (inner.resolve_api_key raw) refl
classified-Personal inner raw auth_token_kind =
    Personal-pair WebAuthMode.oauth (inner.resolve_bearer_auth_token raw) refl

pub bearer_flexible-Personal :
    (credentials : WebCallCredentials) (classifier : Classifier) (inner : Resolver)
    → Personal (resolve_open_api_bearer_flexible credentials classifier inner)
unfolding resolve_open_api_bearer_flexible
bearer_flexible-Personal credentials classifier inner =
    Personal-bind _ _ (λ raw. classified-Personal inner raw (classifier raw))
