-- ===== src/Pipeline/Compatibility.antt =====
-- crates/sdkwork-web-core/src/interceptors.rs: the credentials of a vendor's protocol that a request
-- carries, by the requirements of its route (`extract_compatibility_credentials`).
use sdkwork_web_framework.Base.{Option, none, some, List, [], ◌∷◌, ◌++◌, Result, ok, err, ◌>>=◌}
use sdkwork_web_framework.Base.Text.{Str, lit}
use sdkwork_web_framework.Contract.{
  CompatibilityAuth, CompatibilitySecurityScheme, CompatibilitySecurityRequirement, api_key_header,
  http_bearer,
}
use sdkwork_web_framework.Contract.Validation.{validate, scheme}
use sdkwork_web_framework.Errors.{
  WebFrameworkError, bad_request, missing_credentials, invalid_credentials, with_reason,
}
use sdkwork_web_framework.Http.{HeaderMap, opaque_value, visible}
use sdkwork_web_framework.Http.Extractors.{bearer_token}
use sdkwork_web_framework.OpenApiAuth.{CompatibilityCredential}

-- the value of a scheme in the headers
unfoldable pub scheme_value :
    CompatibilitySecurityScheme → Str → HeaderMap → Result (Option Str) WebFrameworkError
scheme_value found scheme_name headers = elim found.kind [
  | http_bearer format ↦ ok (bearer_token headers)
  | api_key_header header_name ↦ elim (headers header_name) [
    | none ↦ ok none
    | some value ↦ elim value [
      | visible text ↦ ok (some text)
      | opaque_value ↦ err (
          with_reason
            (invalid_credentials (
              lit "compatibility credential " ++ scheme_name ++ lit " is not a valid header value"))
            (lit "invalid-compatibility-credential"))
    ]
  ]
]

-- The inner loop: the credentials of one requirement, nothing if one is missing; the loop ends at
-- the first that is.
unfoldable pub requirement_credentials :
    CompatibilityAuth
    → List Str
    → HeaderMap
    → Result (Option (List CompatibilityCredential)) WebFrameworkError
unfolding scheme_value
requirement_credentials compatibility [] headers = ok (some [])
requirement_credentials compatibility (name ∷ names) headers = elim (scheme compatibility name) [
  | none ↦ err (
      with_reason (bad_request (lit "compatibility requirement references unknown scheme " ++ name))
        (lit "invalid-compatibility-auth-contract"))
  | some found ↦ elim (scheme_value found name headers) [
    | err e ↦ err e
    | ok value ↦ elim value [
      | none ↦ ok none
      | some text ↦ elim (requirement_credentials compatibility names headers) [
        | err e ↦ err e
        | ok rest ↦ elim rest [
          | none ↦ ok none
          | some credentials ↦ ok (some (record { scheme_name = name; value = text } ∷ credentials))
        ]
      ]
    ]
  ]
]

-- the outer loop, which collects the requirements that the request satisfies
unfoldable pub satisfied_requirements :
    CompatibilityAuth
    → List CompatibilitySecurityRequirement
    → HeaderMap
    → Result (List (List CompatibilityCredential)) WebFrameworkError
unfolding requirement_credentials
satisfied_requirements compatibility [] headers = ok []
satisfied_requirements compatibility (requirement ∷ requirements) headers =
    elim (requirement_credentials compatibility requirement.scheme_names headers) [
      | err e ↦ err e
      | ok found ↦ elim (satisfied_requirements compatibility requirements headers) [
        | err e ↦ err e
        | ok rest ↦ elim found [ none ↦ ok rest | some credentials ↦ ok (credentials ∷ rest) ]
      ]
    ]

-- the `match` on the number of requirements that the request satisfies
unfoldable pub only_match :
    List (List CompatibilityCredential) → Result (List CompatibilityCredential) WebFrameworkError
only_match [] = err (
    with_reason
      (missing_credentials
        (lit "compatibility route requires its declared external protocol credentials"))
      (lit "missing-compatibility-credential"))
only_match (credentials ∷ []) = ok credentials
only_match (a ∷ b ∷ rest) = err (
    with_reason
      (bad_request (lit "compatibility request satisfies multiple credential alternatives"))
      (lit "ambiguous-compatibility-credentials"))

unfoldable pub extract_compatibility_credentials :
    CompatibilityAuth → HeaderMap → Result (List CompatibilityCredential) WebFrameworkError
unfolding satisfied_requirements only_match
extract_compatibility_credentials compatibility headers = elim (validate compatibility) [
  | err message ↦
      err (with_reason (bad_request message) (lit "invalid-compatibility-auth-contract"))
  | ok u ↦ do
    matches ← satisfied_requirements compatibility compatibility.requirements headers
    only_match matches
]
