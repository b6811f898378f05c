-- ===== src/Pipeline/Keys/Buckets.antt =====
-- Which calls share a bucket of the rate limit.
use sdkwork_web_framework.Base.{none, is_some, ◌≡◌, refl}
use sdkwork_web_framework.OpenApiAuth.{WebCallCredentials}
use sdkwork_web_framework.Pipeline.Keys.{
  rate_limit_key_of, concurrent_admission_scope_key, credentials_fingerprint,
}
use sdkwork_web_framework.Pipeline.State.{WebCallState, credentials_present}

-- The two carry the same kinds of credentials, whatever the values are.
abbrev pub SameKinds : WebCallCredentials → WebCallCredentials → Type 0
SameKinds c d =
    (is_some c.auth_token ≡ is_some d.auth_token)
    × (is_some c.access_token ≡ is_some d.access_token)
    × (is_some c.api_key ≡ is_some d.api_key)
    × (is_some c.ingress_token ≡ is_some d.ingress_token)
    × (is_some c.oauth_bearer ≡ is_some d.oauth_bearer)
    × (is_some c.agent_token ≡ is_some d.agent_token)

credentials_present-SameKinds :
    (state : WebCallState) (c d : WebCallCredentials)
    → SameKinds c d
    → credentials_present (record state { credentials = c })
      ≡ credentials_present (record state { credentials = d })
unfolding credentials_present
credentials_present-SameKinds state c d (auth, access, api, ingress, oauth, agent) =
    rw (auth, access, api, ingress, oauth, agent) refl

fingerprint-SameKinds :
    (c d : WebCallCredentials)
    → SameKinds c d
    → credentials_fingerprint c ≡ credentials_fingerprint d
unfolding credentials_fingerprint
fingerprint-SameKinds c d (auth, access, api, ingress, oauth, agent) =
    rw (auth, access, api, ingress, oauth, agent) refl

-- The same call with other credentials of the same kinds, before it has a principal, is charged to
-- the same bucket of the rate limit and to the same admission scope: the values of the credentials
-- take no part in the two keys.
pub rate_limit_key-SameKinds :
    (state : WebCallState) (c d : WebCallCredentials)
    → state.principal ≡ none
    → SameKinds c d
    → (rate_limit_key_of (record state { credentials = c })
        ≡ rate_limit_key_of (record state { credentials = d }))
      × (concurrent_admission_scope_key (record state { credentials = c })
          ≡ concurrent_admission_scope_key (record state { credentials = d }))
unfolding rate_limit_key_of concurrent_admission_scope_key
rate_limit_key-SameKinds state c d anonymous same =
    let present = credentials_present-SameKinds state c d same in
    let fingerprint = fingerprint-SameKinds c d same in
    (rw (anonymous, present, fingerprint) refl, rw (anonymous, present, fingerprint) refl)
