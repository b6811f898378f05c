-- ===== src/Security/ResponseHeaders.antt =====
-- crates/sdkwork-web-core/src/security.rs: the headers that the policy of origins and the policy of
-- headers put on a response.
use sdkwork_web_framework.Base.{Bool, not, Option, none, some, ◌++◌, any, is_empty, if◌then◌else◌}
use sdkwork_web_framework.Base.Text.{Str, lit, str_eq, trim, split}
use sdkwork_web_framework.Base.Text.Ops.{eq_ignore_ascii_case, join_with, trimmed_non_empty}
use sdkwork_web_framework.Base.Dict
use sdkwork_web_framework.Base.Dict.{Dict}
use sdkwork_web_framework.Http.{HeaderText, opaque_value, visible, HttpLibrary}
use sdkwork_web_framework.Security.{HeaderSecurityPolicy, CorsPolicy}
use sdkwork_web_framework.Security.Cors.{allows_origin}

-- The headers of a response: values by lower-case names.
abbrev pub ResponseHeaders : Type 0
ResponseHeaders = Dict HeaderText

module _ (library : HttpLibrary) where
  -- `if let Ok(value) = HeaderValue::from_str(text) { headers.insert(name, value) }`
  unfoldable pub insert_text : Str → Str → ResponseHeaders → ResponseHeaders
  insert_text name text headers =
      if library.is_header_value text then Dict.insert name (visible text) headers else headers

  unfoldable pub merge_vary_origin : ResponseHeaders → ResponseHeaders
  unfolding insert_text
  merge_vary_origin headers = elim (Dict.get (lit "vary") headers) [
    | none ↦ Dict.insert (lit "vary") (visible (lit "Origin")) headers
    | some existing ↦ elim existing [
      | opaque_value ↦ Dict.insert (lit "vary") (visible (lit "Origin")) headers
      | visible text ↦
          if any (λ value. eq_ignore_ascii_case (trim value) (lit "origin")) (split b',' text)
          then headers
          else insert_text (lit "vary") (text ++ lit ", Origin") headers
    ]
  ]

  unfoldable pub insert_allow_origin : Str → ResponseHeaders → ResponseHeaders
  unfolding merge_vary_origin
  insert_allow_origin origin headers =
      if library.is_header_value origin
      then merge_vary_origin
          (Dict.insert (lit "access-control-allow-origin") (visible origin) headers)
      else headers

  unfoldable pub insert_allow_credentials : CorsPolicy → ResponseHeaders → ResponseHeaders
  insert_allow_credentials policy headers =
      if policy.allow_credentials
      then Dict.insert (lit "access-control-allow-credentials") (visible (lit "true")) headers
      else headers

  unfoldable pub allow_headers_value : CorsPolicy → Str
  allow_headers_value policy =
      if any (λ allowed. str_eq allowed (lit "*")) policy.allowed_headers
      then lit "*"
      else join_with (lit ", ") policy.allowed_headers

  -- the lists of headers and methods
  unfoldable pub insert_policy_lists : CorsPolicy → ResponseHeaders → ResponseHeaders
  unfolding insert_text allow_headers_value
  insert_policy_lists policy headers =
      let with_headers =
        insert_text (lit "access-control-allow-headers") (allow_headers_value policy) headers in
      let with_methods =
        insert_text (lit "access-control-allow-methods")
          (join_with (lit ", ") policy.allowed_methods) with_headers in
      if not (is_empty policy.expose_headers)
      then insert_text (lit "access-control-expose-headers")
          (join_with (lit ", ") policy.expose_headers) with_methods
      else with_methods

  unfoldable pub apply_headers_from_origin :
      CorsPolicy → Option Str → ResponseHeaders → ResponseHeaders
  unfolding insert_allow_origin insert_allow_credentials insert_policy_lists allows_origin
  apply_headers_from_origin policy origin headers = elim (trimmed_non_empty origin) [
    | none ↦ headers
    | some value ↦
        if not (allows_origin library policy value)
        then headers
        else insert_policy_lists policy
            (insert_allow_credentials policy (insert_allow_origin value headers))
  ]

  -- `SecurityPolicy::apply_cors_policy_headers_from_origin`
  unfoldable pub apply_cors_policy_headers_from_origin :
      CorsPolicy → Option Str → ResponseHeaders → ResponseHeaders
  unfolding apply_headers_from_origin insert_text
  apply_cors_policy_headers_from_origin policy origin headers =
      insert_text (lit "access-control-allow-methods") (join_with (lit ", ") policy.allowed_methods)
        (apply_headers_from_origin policy origin headers)

  -- the optional headers of `apply_response_headers`
  unfoldable pub insert_optional : Str → Option Str → ResponseHeaders → ResponseHeaders
  insert_optional name none headers = headers
  insert_optional name (some text) headers =
      if library.is_header_value text then Dict.insert name (visible text) headers else headers

  unfoldable pub insert_when : Bool → Str → Str → ResponseHeaders → ResponseHeaders
  insert_when switched name text headers =
      if switched then Dict.insert name (visible text) headers else headers

  -- `apply_response_headers`
  unfoldable pub apply_response_headers : HeaderSecurityPolicy → ResponseHeaders → ResponseHeaders
  unfolding insert_when insert_optional
  apply_response_headers policy headers =
      let typed =
        insert_when policy.content_type_options (lit "x-content-type-options") (lit "nosniff")
          headers in
      let framed =
        insert_when policy.frame_options_deny (lit "x-frame-options") (lit "DENY") typed in
      let referred = insert_optional (lit "referrer-policy") policy.referrer_policy framed in
      let permitted =
        insert_optional (lit "permissions-policy") policy.permissions_policy referred in
      insert_optional (lit "strict-transport-security") policy.strict_transport_security permitted
