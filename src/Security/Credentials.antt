-- ===== src/Security/Credentials.antt =====
-- crates/sdkwork-web-core/src/security.rs and constants.rs: which credential headers a request may
-- carry, by the authentication profile of its route.
use sdkwork_web_framework.Base.{
  Bool, false, not, ◌&&◌, ◌||◌, Option, none, some, List, [], ◌∷◌, ◌++◌, any, if◌then◌else◌, Result,
  ok, err, ◌>>◌,
}
use sdkwork_web_framework.Base.Text.{Str, lit, str_eq}
use sdkwork_web_framework.Base.Text.Ops.{eq_ignore_ascii_case}
use sdkwork_web_framework.Contract.{
  RouteAuth, HttpRoute, CompatibilitySecurityScheme, api_key_header, http_bearer, auth_eq,
  auth_profile_label,
}
use sdkwork_web_framework.Contract.Validation.{validate}
use sdkwork_web_framework.Errors.{WebFrameworkError, bad_request, with_reason}
use sdkwork_web_framework.Http.{HeaderMap, contains_key}

abbrev pub standard_credential_headers : List Str
standard_credential_headers =
    lit "authorization"
    ∷ lit "access-token"
    ∷ lit "x-api-key"
    ∷ lit "x-sdkwork-ingress-token"
    ∷ lit "x-sdkwork-access-token"
    ∷ lit "x-sdkwork-agent-token"
    ∷ []

abbrev pub forbidden_client_identity_headers : List Str
forbidden_client_identity_headers =
    lit "x-sdkwork-tenant-id"
    ∷ lit "x-sdkwork-app-id"
    ∷ lit "x-sdkwork-user-id"
    ∷ lit "x-sdkwork-organization-id"
    ∷ lit "x-sdkwork-actor-id"
    ∷ lit "x-sdkwork-actor-kind"
    ∷ lit "x-sdkwork-session-id"
    ∷ lit "x-sdkwork-environment"
    ∷ lit "x-sdkwork-deployment-profile"
    ∷ lit "x-sdkwork-deployment-mode"
    ∷ lit "x-sdkwork-runtime-target"
    ∷ lit "x-sdkwork-auth-level"
    ∷ lit "x-sdkwork-data-scope"
    ∷ lit "x-sdkwork-permission-scope"
    ∷ lit "x-sdkwork-device-id"
    ∷ lit "x-sdkwork-context-signature"
    ∷ lit "x-sdkwork-operation-id"
    ∷ lit "x-tenant-id"
    ∷ lit "x-app-id"
    ∷ lit "x-user-id"
    ∷ lit "x-organization-id"
    ∷ []

-- The table `allowed`; a compatibility route never reaches it.
unfoldable pub allowed_headers_for : RouteAuth → List Str
allowed_headers_for RouteAuth.public = []
allowed_headers_for RouteAuth.bootstrap_body = []
allowed_headers_for RouteAuth.refresh_token = []
allowed_headers_for RouteAuth.credential_entry_bootstrap = lit "access-token" ∷ []
allowed_headers_for RouteAuth.dual_token = lit "authorization" ∷ lit "access-token" ∷ []
allowed_headers_for RouteAuth.dual_token_or_anonymous =
    lit "authorization" ∷ lit "access-token" ∷ []
allowed_headers_for RouteAuth.api_key = lit "x-api-key" ∷ []
allowed_headers_for RouteAuth.oauth = lit "authorization" ∷ []
allowed_headers_for RouteAuth.open_api_flexible = lit "authorization" ∷ lit "x-api-key" ∷ []
allowed_headers_for RouteAuth.open_api_bearer_flexible = lit "authorization" ∷ lit "x-api-key" ∷ []
allowed_headers_for RouteAuth.api_key_or_dual_token =
    lit "authorization" ∷ lit "access-token" ∷ lit "x-api-key" ∷ []
allowed_headers_for RouteAuth.ingress_token =
    lit "x-sdkwork-ingress-token" ∷ lit "access-token" ∷ []
allowed_headers_for RouteAuth.agent_token = lit "x-sdkwork-agent-token" ∷ lit "access-token" ∷ []
allowed_headers_for RouteAuth.compatibility = []

-- The loops over credential headers: the first one that is present and not allowed is refused.
unfoldable pub first_refused : HeaderMap → (Str → Bool) → List Str → Option Str
first_refused headers allowed [] = none
first_refused headers allowed (name ∷ names) =
    let rest = first_refused headers allowed names in
    if contains_key headers name && not (allowed name) then some name else rest

-- the closure over `compatibility.schemes`
unfoldable pub scheme_carries : Str → CompatibilitySecurityScheme → Bool
scheme_carries name scheme = elim scheme.kind [
  | api_key_header header_name ↦ eq_ignore_ascii_case header_name name
  | http_bearer format ↦ str_eq name (lit "authorization")
]

-- the either-or rule of the profile of an API key or the dual token
unfoldable pub check_key_or_dual : RouteAuth → HeaderMap → Result (Unit {0}) WebFrameworkError
check_key_or_dual route_auth headers =
    let has_api_key = contains_key headers (lit "x-api-key") in
    let has_auth_token = contains_key headers (lit "authorization") in
    let has_access_token = contains_key headers (lit "access-token") in
    if not (auth_eq route_auth RouteAuth.api_key_or_dual_token)
    then ok tt
    else if has_api_key && (has_auth_token || has_access_token)
    then err (
        with_reason
          (bad_request (
            lit
              "api-key-or-dual-token routes require either X-API-Key or the dual-token pair, never both"))
          (lit "credential-profile-contamination"))
    else if (has_auth_token && not has_access_token) || (has_access_token && not has_auth_token)
    then err (
        with_reason
          (bad_request (lit "the dual-token branch requires both Authorization and Access-Token"))
          (lit "incomplete-credential-profile"))
    else ok tt

unfoldable pub validate_standard_route_auth_credentials :
    RouteAuth → HeaderMap → Result (Unit {0}) WebFrameworkError
unfolding first_refused check_key_or_dual
validate_standard_route_auth_credentials route_auth headers =
    elim (first_refused headers (λ name. any (str_eq name) (allowed_headers_for route_auth))
      standard_credential_headers) [
        | some name ↦ err (
            with_reason
              (bad_request (
                auth_profile_label route_auth
                ++ lit " routes must not receive credential header "
                ++ name))
              (lit "credential-profile-contamination"))
        | none ↦ check_key_or_dual route_auth headers
      ]

unfoldable pub validate_route_auth_credentials :
    HttpRoute → HeaderMap → Result (Unit {0}) WebFrameworkError
unfolding validate_standard_route_auth_credentials
validate_route_auth_credentials route headers =
    if auth_eq route.auth RouteAuth.compatibility
    then elim route.compatibility_auth [
      | none ↦ err (
          with_reason
            (bad_request (lit "compatibility route is missing external authentication metadata"))
            (lit "invalid-compatibility-auth-contract"))
      | some compatibility ↦ elim (validate compatibility) [
        | err message ↦
            err (with_reason (bad_request message) (lit "invalid-compatibility-auth-contract"))
        | ok u ↦
            elim (first_refused headers (λ name. any (scheme_carries name) compatibility.schemes)
              standard_credential_headers) [
                | some name ↦ err (
                    with_reason
                      (bad_request (
                        lit "compatibility routes must not receive undeclared credential header "
                        ++ name))
                      (lit "credential-profile-contamination"))
                | none ↦ ok tt
              ]
      ]
    ]
    else validate_standard_route_auth_credentials route.auth headers

unfoldable pub reject_client_identity_projection : HeaderMap → Result (Unit {0}) WebFrameworkError
reject_client_identity_projection headers =
    elim (first_refused headers (λ name. false) forbidden_client_identity_headers) [
      | none ↦ ok tt
      | some name ↦
          err (bad_request (lit "client must not send identity projection header " ++ name))
    ]

unfoldable pub reject_credential_entry_headers : HeaderMap → Result (Unit {0}) WebFrameworkError
reject_credential_entry_headers headers =
    validate_standard_route_auth_credentials RouteAuth.credential_entry_bootstrap headers
    >> elim (first_refused headers (λ name. false) forbidden_client_identity_headers) [
      | none ↦ ok tt
      | some name ↦ err (
          bad_request
            (lit "credential-entry routes must not receive identity projection header " ++ name))
    ]
