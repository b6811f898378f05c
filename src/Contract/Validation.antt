-- ===== src/Contract/Validation.antt =====
-- crates/sdkwork-web-contract/src/lib.rs: the checks that a route's compatibility metadata and
-- its log retention pass. The JSON library serde_json is the parameter `Json`.
pub mod Compatibility
use sdkwork_web_framework.Base.{
  ℕ, ◌+◌, ◌-◌, ◌*◌, ◌^◌, zero, suc, Bool, true, false, not, ◌&&◌, ◌||◌, Option, none, some, List,
  [], ◌∷◌, ◌++◌, ◌≡◌, ◌≢◌, refl, arith, if◌then◌else◌, leb, ltb, ◌==◌, is_empty, is_some, any, all,
  find, length, All, and_then, Result, ok, err, ok_or, ◌>>=◌, ◌>>◌, Bool-cases,
}
use sdkwork_web_framework.Base.Text.{Str, lit, str_eq, trim, ends_with}
use sdkwork_web_framework.Contract.{
  CompatibilitySecuritySchemeKind, api_key_header, http_bearer, CompatibilitySecurityScheme,
  CompatibilitySecurityRequirement, CompatibilityAuth, HttpRoute, RouteAuth, auth_eq,
}

-- The operations of serde_json that the program calls.
pub record Json : Type 1 where
  pub Value : Type 0
  -- the parsed document, or the parser's message
  pub from_str : Str → Result Value Str
  pub is_object : Value → Bool
  -- `get` on an object
  pub member : Value → Str → Option Value
  pub as_str : Value → Option Str

-- `trim().is_empty()`
unfoldable pub is_blank : Str → Bool
is_blank s = is_empty (trim s)

unfoldable pub is_kebab_byte : ℕ → Bool
is_kebab_byte c = (leb b'a' c && leb c b'z') || (leb b'0' c && leb c b'9') || c == b'-'

-- `CompatibilityAuth::scheme`
unfoldable pub scheme : CompatibilityAuth → Str → Option CompatibilitySecurityScheme
scheme auth name = find (λ s. str_eq s.name name) auth.schemes

unfoldable pub header_is_blank : CompatibilitySecuritySchemeKind → Bool
header_is_blank (api_key_header header_name) = is_blank header_name
header_is_blank (http_bearer format) = false

-- the loop over `self.schemes`
unfoldable pub validate_schemes : List CompatibilitySecurityScheme → Result (Unit {0}) Str
validate_schemes [] = ok tt
validate_schemes (s ∷ rest) =
    let next = validate_schemes rest in
    if is_blank s.name
    then err (lit "compatibility security scheme name must not be empty")
    else if header_is_blank s.kind
    then err (lit "compatibility API-key header name must not be empty")
    else next

-- the loop over `requirement.scheme_names`
unfoldable pub validate_names : List CompatibilitySecurityScheme → List Str → Result (Unit {0}) Str
validate_names schemes [] = ok tt
validate_names schemes (name ∷ rest) =
    let next = validate_names schemes rest in
    if not (any (λ s. str_eq s.name name) schemes)
    then err (lit "compatibility security requirement references unknown scheme " ++ name)
    else next

-- the loop over `self.requirements`
unfoldable pub validate_requirements :
    List CompatibilitySecurityScheme → List CompatibilitySecurityRequirement → Result (Unit {0}) Str
validate_requirements schemes [] = ok tt
validate_requirements schemes (r ∷ rest) =
    let next = validate_requirements schemes rest in
    if is_empty r.scheme_names
    then err (lit "compatibility security requirement must not be empty")
    else (validate_names schemes r.scheme_names >> next)

-- `CompatibilityAuth::validate`
unfoldable pub validate : CompatibilityAuth → Result (Unit {0}) Str
validate auth =
    if is_empty auth.external_protocol_id || not (all is_kebab_byte auth.external_protocol_id)
    then err (lit "external protocol id must be non-empty lowercase kebab-case")
    else if is_empty auth.schemes || is_empty auth.requirements
    then err (lit "compatibility auth must declare schemes and security requirements")
    else (validate_schemes auth.schemes >> validate_requirements auth.schemes auth.requirements)

module _ (J : Json) (route : HttpRoute) where
  open J use {Value, from_str, is_object, member, as_str}

  -- the parsed upstream operation, with the parser's message passed on
  unfoldable pub parse_operation : Str → Result Value Str
  parse_operation source = elim (from_str source) [
    | ok v ↦ ok v
    | err e ↦ err (
        lit "compatibility route "
        ++ route.operation_id
        ++ lit " has invalid OpenAPI operation JSON: "
        ++ e)
  ]

  -- `get("operationId").and_then(as_str) == Some(operation_id)`
  unfoldable pub names_operation : Value → Bool
  names_operation operation = elim (and_then (member operation (lit "operationId")) as_str) [
    | none ↦ false
    | some s ↦ str_eq s route.operation_id
  ]

  -- `get("responses").is_some_and(is_object)`
  unfoldable pub has_responses : Value → Bool
  has_responses operation = elim (member operation (lit "responses")) [
    | none ↦ false
    | some v ↦ is_object v
  ]

  -- the checks on the parsed operation
  unfoldable pub validate_operation : Value → Result (Unit {0}) Str
  unfolding names_operation has_responses
  validate_operation operation =
      if not (is_object operation)
      then err (
          lit "compatibility route "
          ++ route.operation_id
          ++ lit " OpenAPI operation must be a JSON object")
      else if not (names_operation operation)
      then err (
          lit "compatibility route "
          ++ route.operation_id
          ++ lit " operationId must match its upstream OpenAPI operation")
      else if not (has_responses operation)
      then err (
          lit "compatibility route "
          ++ route.operation_id
          ++ lit " must preserve upstream response definitions")
      else ok tt

  -- `HttpRoute::validate_compatibility_contract`
  unfoldable pub validate_compatibility_contract : Result (Unit {0}) Str
  unfolding parse_operation
  validate_compatibility_contract =
      if not (auth_eq route.auth RouteAuth.compatibility)
      then if is_some route.compatibility_auth || is_some route.compatibility_openapi_operation
        then err (
            lit "non-compatibility route "
            ++ route.operation_id
            ++ lit " must not declare compatibility metadata")
        else ok tt
      else do
        auth ← ok_or route.compatibility_auth (
            lit "compatibility route "
            ++ route.operation_id
            ++ lit " must declare external authentication metadata")
        validate auth
        source ← ok_or route.compatibility_openapi_operation (
            lit "compatibility route "
            ++ route.operation_id
            ++ lit " must provide exact upstream OpenAPI operation JSON")
        operation ← parse_operation source
        validate_operation operation

-- The value of a text of decimal digits, read from the left.
unfoldable pub parse_digits : ℕ → Str → Option ℕ
parse_digits n [] = some n
parse_digits n (c ∷ s) =
    let rest = parse_digits (n * 10 + (c - 48)) s in if leb 48 c && leb c 57 then rest else none

-- `parse::<i64>().is_ok_and(|days| days > 0)`: an optional sign, at least one digit, no overflow.
unfoldable pub is_positive_i64 : Str → Bool
unfolding parse_digits
is_positive_i64 [] = false
is_positive_i64 (c ∷ s) =
    elim (if c == b'+' && not (is_empty s) then parse_digits 0 s else parse_digits 0 (c ∷ s)) [
      | none ↦ false
      | some n ↦ ltb 0 n && ltb n (2 ^ 63)
    ]

-- `retention[..retention.len() - 1]`
unfoldable pub drop_last : Str → Str
drop_last [] = []
drop_last (c ∷ s) = let rest = drop_last s in if is_empty s then [] else c ∷ rest

-- the value `valid` of `validate_log_retention`
unfoldable pub is_valid_retention : Str → Bool
is_valid_retention retention =
    str_eq retention (lit "permanent")
    || (leb 2 (length retention)
        && ends_with (lit "d") retention
        && is_positive_i64 (drop_last retention))

-- `HttpRoute::validate_log_retention`; `quoted` is the text that `{retention:?}` prints.
unfoldable pub validate_log_retention : (quoted : Str → Str) → HttpRoute → Result (Unit {0}) Str
unfolding is_valid_retention
validate_log_retention quoted route = elim route.log_retention [
  | none ↦ ok tt
  | some retention ↦
      if not (is_valid_retention retention)
      then err (
          lit "route "
          ++ route.operation_id
          ++ lit " declares invalid log_retention "
          ++ quoted retention
          ++ lit ": expected \"permanent\" or \"<n>d\"")
      else ok tt
]
