-- ===== src/Errors.antt =====
-- crates/sdkwork-web-core/src/error.rs: the framework's error, its constructors and its mapping to
-- HTTP. Numeric result codes come from the library sdkwork_utils_rust and are not modelled.
pub mod Kind
use Kind.{WebFrameworkErrorKind}
use sdkwork_web_framework.Base.{ℕ, Option, none, some, unwrap_or}
use sdkwork_web_framework.Base.Text.{Str, lit}

pub record WebFrameworkError : Type 0 where
  pub kind : WebFrameworkErrorKind
  pub message : Str
  pub retry_after_seconds : Option ℕ
  pub auth_profile : Option Str
  pub failed_stage : Option Str
  pub reason : Option Str

-- `WebFrameworkError::new`
abbrev pub new_error : WebFrameworkErrorKind → Str → WebFrameworkError
new_error kind message = record {
  kind = kind;
  message = message;
  retry_after_seconds = none;
  auth_profile = none;
  failed_stage = none;
  reason = none;
}

unfoldable pub missing_credentials : Str → WebFrameworkError
missing_credentials message = new_error WebFrameworkErrorKind.missing_credentials message

unfoldable pub invalid_credentials : Str → WebFrameworkError
invalid_credentials message = new_error WebFrameworkErrorKind.invalid_credentials message

unfoldable pub forbidden : Str → WebFrameworkError
forbidden message = new_error WebFrameworkErrorKind.forbidden message

unfoldable pub bad_request : Str → WebFrameworkError
bad_request message = new_error WebFrameworkErrorKind.bad_request message

unfoldable pub conflict : Str → WebFrameworkError
conflict message = new_error WebFrameworkErrorKind.conflict message

unfoldable pub payload_too_large : Str → WebFrameworkError
payload_too_large message = new_error WebFrameworkErrorKind.payload_too_large message

unfoldable pub dependency_unavailable : Str → WebFrameworkError
dependency_unavailable message = new_error WebFrameworkErrorKind.dependency_unavailable message

unfoldable pub internal_server_error : Str → WebFrameworkError
internal_server_error message = new_error WebFrameworkErrorKind.internal_server_error message

unfoldable pub rate_limit_exceeded : Str → ℕ → WebFrameworkError
rate_limit_exceeded message retry_after_seconds =
    record (new_error WebFrameworkErrorKind.rate_limit_exceeded message) {
      retry_after_seconds = some retry_after_seconds;
    }

-- `WebFrameworkErrorKind::reason`
unfoldable pub reason_of : WebFrameworkErrorKind → Str
reason_of WebFrameworkErrorKind.missing_credentials = lit "missing-credentials"
reason_of WebFrameworkErrorKind.expired_credentials = lit "expired-credentials"
reason_of WebFrameworkErrorKind.invalid_credentials = lit "invalid-credentials"
reason_of WebFrameworkErrorKind.revoked_credentials = lit "revoked-credentials"
reason_of WebFrameworkErrorKind.forbidden = lit "forbidden"
reason_of WebFrameworkErrorKind.bad_request = lit "bad-request"
reason_of WebFrameworkErrorKind.unprocessable_entity = lit "unprocessable-entity"
reason_of WebFrameworkErrorKind.conflict = lit "conflict"
reason_of WebFrameworkErrorKind.payload_too_large = lit "payload-too-large"
reason_of WebFrameworkErrorKind.rate_limit_exceeded = lit "rate-limit-exceeded"
reason_of WebFrameworkErrorKind.dependency_unavailable = lit "dependency-unavailable"
reason_of WebFrameworkErrorKind.request_timeout = lit "request-timeout"
reason_of WebFrameworkErrorKind.method_not_allowed = lit "method-not-allowed"
reason_of WebFrameworkErrorKind.not_found = lit "not-found"
reason_of WebFrameworkErrorKind.not_implemented = lit "not-implemented"
reason_of WebFrameworkErrorKind.internal_server_error = lit "internal-server-error"
reason_of WebFrameworkErrorKind.context_not_injected = lit "context-not-injected"
reason_of WebFrameworkErrorKind.web_socket_rejected = lit "websocket-rejected"

-- `Display for WebFrameworkErrorKind`
unfoldable pub display_kind : WebFrameworkErrorKind → Str
display_kind WebFrameworkErrorKind.missing_credentials = lit "missing_credentials"
display_kind WebFrameworkErrorKind.expired_credentials = lit "expired_credentials"
display_kind WebFrameworkErrorKind.invalid_credentials = lit "invalid_credentials"
display_kind WebFrameworkErrorKind.revoked_credentials = lit "revoked_credentials"
display_kind WebFrameworkErrorKind.forbidden = lit "forbidden"
display_kind WebFrameworkErrorKind.bad_request = lit "bad_request"
display_kind WebFrameworkErrorKind.unprocessable_entity = lit "unprocessable_entity"
display_kind WebFrameworkErrorKind.conflict = lit "conflict"
display_kind WebFrameworkErrorKind.payload_too_large = lit "payload_too_large"
display_kind WebFrameworkErrorKind.rate_limit_exceeded = lit "rate_limit_exceeded"
display_kind WebFrameworkErrorKind.dependency_unavailable = lit "dependency_unavailable"
display_kind WebFrameworkErrorKind.request_timeout = lit "request_timeout"
display_kind WebFrameworkErrorKind.method_not_allowed = lit "method_not_allowed"
display_kind WebFrameworkErrorKind.not_found = lit "not_found"
display_kind WebFrameworkErrorKind.not_implemented = lit "not_implemented"
display_kind WebFrameworkErrorKind.internal_server_error = lit "internal_server_error"
display_kind WebFrameworkErrorKind.context_not_injected = lit "context_not_injected"
display_kind WebFrameworkErrorKind.web_socket_rejected = lit "websocket_rejected"

-- `WebFrameworkError::status`
unfoldable pub status_of_kind : WebFrameworkErrorKind → ℕ
status_of_kind WebFrameworkErrorKind.missing_credentials = 401
status_of_kind WebFrameworkErrorKind.expired_credentials = 401
status_of_kind WebFrameworkErrorKind.invalid_credentials = 401
status_of_kind WebFrameworkErrorKind.revoked_credentials = 401
status_of_kind WebFrameworkErrorKind.forbidden = 403
status_of_kind WebFrameworkErrorKind.bad_request = 400
status_of_kind WebFrameworkErrorKind.unprocessable_entity = 422
status_of_kind WebFrameworkErrorKind.conflict = 409
status_of_kind WebFrameworkErrorKind.payload_too_large = 413
status_of_kind WebFrameworkErrorKind.rate_limit_exceeded = 429
status_of_kind WebFrameworkErrorKind.dependency_unavailable = 503
status_of_kind WebFrameworkErrorKind.request_timeout = 408
status_of_kind WebFrameworkErrorKind.method_not_allowed = 405
status_of_kind WebFrameworkErrorKind.not_found = 404
status_of_kind WebFrameworkErrorKind.not_implemented = 501
status_of_kind WebFrameworkErrorKind.internal_server_error = 500
status_of_kind WebFrameworkErrorKind.context_not_injected = 500
status_of_kind WebFrameworkErrorKind.web_socket_rejected = 400

unfoldable pub status : WebFrameworkError → ℕ
status e = status_of_kind e.kind

unfoldable pub with_reason : WebFrameworkError → Str → WebFrameworkError
with_reason e reason = record e { reason = some reason }

-- An explicit reason is kept; without one the kind's own is filled in.
unfoldable pub with_auth_diagnostics : WebFrameworkError → Option Str → Str → WebFrameworkError
with_auth_diagnostics e auth_profile failed_stage = record e {
  auth_profile = auth_profile;
  failed_stage = some failed_stage;
  reason = some (unwrap_or e.reason (reason_of e.kind));
}

unfoldable pub method_not_allowed : Str → WebFrameworkError
method_not_allowed message = new_error WebFrameworkErrorKind.method_not_allowed message

unfoldable pub not_found : Str → WebFrameworkError
not_found message = new_error WebFrameworkErrorKind.not_found message

unfoldable pub request_timeout : Str → WebFrameworkError
request_timeout message = new_error WebFrameworkErrorKind.request_timeout message

unfoldable pub unprocessable_entity : Str → WebFrameworkError
unprocessable_entity message = new_error WebFrameworkErrorKind.unprocessable_entity message
