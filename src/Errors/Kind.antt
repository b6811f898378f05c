-- ===== src/Errors/Kind.antt =====
-- crates/sdkwork-web-core/src/error.rs: the kinds of a framework error.
pub data WebFrameworkErrorKind : Type 0 where
  missing_credentials expired_credentials invalid_credentials revoked_credentials :
      WebFrameworkErrorKind
  forbidden bad_request unprocessable_entity conflict payload_too_large : WebFrameworkErrorKind
  rate_limit_exceeded dependency_unavailable request_timeout method_not_allowed :
      WebFrameworkErrorKind
  not_found not_implemented internal_server_error context_not_injected web_socket_rejected :
      WebFrameworkErrorKind
