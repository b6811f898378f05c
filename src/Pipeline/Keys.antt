-- ===== src/Pipeline/Keys.antt =====
-- crates/sdkwork-web-core/src/api_chain.rs: the keys under which a call is rate
-- limited, admitted and answered again.
pub mod Buckets
use sdkwork_web_framework.Base.{
  ℕ, zero, suc, ◌+◌, ◌*◌, ◌/◌, ◌%◌, ◌^◌, Bool, true, false, Option, none, some, List, [], ◌∷◌, ◌++◌,
  if◌then◌else◌, ltb, is_some, unwrap_or,
}
use sdkwork_web_framework.Base.Text.{Str, lit}
use sdkwork_web_framework.Hashing.{hash_key_material}
use sdkwork_web_framework.Contract.{RateLimitTier}
use sdkwork_web_framework.Contract
use sdkwork_web_framework.OpenApiAuth.{WebCallCredentials}
use sdkwork_web_framework.Pipeline.State.{WebCallState, credentials_present}

-- `{tier:?}`
unfoldable pub tier_debug : RateLimitTier → Str
tier_debug Contract.auth_critical = lit "AuthCritical"
tier_debug Contract.open_api_default = lit "OpenApiDefault"
tier_debug Contract.upload = lit "Upload"
tier_debug Contract.search_tier = lit "Search"
tier_debug Contract.bulk = lit "Bulk"
tier_debug Contract.worker = lit "Worker"
tier_debug Contract.internal = lit "Internal"

unfoldable pub tier_suffix : Option RateLimitTier → Str
tier_suffix none = []
tier_suffix (some tier) = lit ":tier:" ++ tier_debug tier

-- `{}` of a Boolean
unfoldable pub bool_text : Bool → Str
bool_text true = lit "true"
bool_text false = lit "false"

unfoldable pub credentials_fingerprint : WebCallCredentials → Str
unfolding bool_text
credentials_fingerprint c =
    lit "a="
    ++ bool_text (is_some c.auth_token)
    ++ lit ":t="
    ++ bool_text (is_some c.access_token)
    ++ lit ":k="
    ++ bool_text (is_some c.api_key)
    ++ lit ":i="
    ++ bool_text (is_some c.ingress_token)
    ++ lit ":o="
    ++ bool_text (is_some c.oauth_bearer)
    ++ lit ":g="
    ++ bool_text (is_some c.agent_token)

unfoldable pub rate_limit_key_of : WebCallState → Str
unfolding tier_suffix credentials_fingerprint
rate_limit_key_of state =
    let path_hash = hash_key_material state.path in
    let suffix = tier_suffix state.rate_limit_tier in
    elim state.principal [
      | some principal ↦
          lit "tenant:"
          ++ hash_key_material principal.tenancy.tenant_id
          ++ lit ":path:"
          ++ path_hash
          ++ suffix
      | none ↦
          if credentials_present state
          then lit "cred:"
            ++ hash_key_material (credentials_fingerprint state.credentials)
            ++ lit ":path:"
            ++ path_hash
            ++ suffix
          else lit "anon:path:" ++ path_hash ++ suffix
    ]

-- the scope of a call that is not public and has no principal
unfoldable pub credential_scope : WebCallCredentials → Str
credential_scope c = elim c.api_key [
  | some api_key ↦ lit "api_key=" ++ hash_key_material api_key
  | none ↦ elim c.ingress_token [
    | some ingress_token ↦ lit "ingress_token=" ++ hash_key_material ingress_token
    | none ↦ elim c.agent_token [
      | some agent_token ↦ lit "agent_token=" ++ hash_key_material agent_token
      | none ↦ elim c.oauth_bearer [
        | some oauth ↦ lit "oauth=" ++ hash_key_material oauth
        | none ↦
            lit "tokens="
            ++ hash_key_material
                (unwrap_or c.auth_token [] ++ lit "|" ++ unwrap_or c.access_token [])
      ]
    ]
  ]
]

unfoldable pub idempotency_scope : WebCallState → Str
unfolding credential_scope
idempotency_scope state = if state.public_path then lit "public" else elim state.principal [
  | some principal ↦
      lit "tenant="
      ++ hash_key_material principal.tenancy.tenant_id
      ++ lit ":app="
      ++ hash_key_material principal.app.app_id
      ++ lit ":user="
      ++ hash_key_material principal.subject.user_id
  | none ↦ credential_scope state.credentials
]

unfoldable pub scoped_idempotency_store_key : WebCallState → Str → Str
unfolding idempotency_scope
scoped_idempotency_store_key state client_key =
    hash_key_material (idempotency_scope state) ++ lit ":" ++ client_key

unfoldable pub concurrent_admission_scope_key : WebCallState → Option Str
unfolding credentials_fingerprint
concurrent_admission_scope_key state = elim state.principal [
  | some principal ↦
      some (lit "tenant:" ++ hash_key_material principal.tenancy.tenant_id ++ lit ":concurrent")
  | none ↦
      if state.public_path
      then none
      else if credentials_present state
      then some (
          lit "cred:"
          ++ hash_key_material (credentials_fingerprint state.credentials)
          ++ lit ":concurrent")
      else some (lit "anon:concurrent")
]
