-- ===== src/Http/Extractors.antt =====
-- crates/sdkwork-web-core/src/extractors.rs: the credentials and keys that the headers carry.
use sdkwork_web_framework.Base.{Option, or_else, and_then}
use sdkwork_web_framework.Base.Text.{Str, lit, strip_prefix}
use sdkwork_web_framework.Base.Text.Ops.{trimmed_non_empty}
use sdkwork_web_framework.Http.{HeaderMap, header_value}

unfoldable pub idempotency_key_of : HeaderMap → Option Str
idempotency_key_of headers =
    or_else (header_value headers (lit "Idempotency-Key"))
      (header_value headers (lit "X-Idempotency-Key"))

unfoldable pub bearer_token : HeaderMap → Option Str
bearer_token headers = and_then (header_value headers (lit "Authorization")) (λ raw.
    trimmed_non_empty
      (or_else (strip_prefix (lit "Bearer ") raw) (strip_prefix (lit "bearer ") raw)))

unfoldable pub api_key_of : HeaderMap → Option Str
api_key_of headers = header_value headers (lit "X-Api-Key")

unfoldable pub ingress_token_of : HeaderMap → Option Str
ingress_token_of headers = header_value headers (lit "X-SDKWork-Ingress-Token")

unfoldable pub agent_token_of : HeaderMap → Option Str
agent_token_of headers = header_value headers (lit "X-SDKWork-Agent-Token")

unfoldable pub access_token_of : HeaderMap → Option Str
access_token_of headers = header_value headers (lit "Access-Token")
