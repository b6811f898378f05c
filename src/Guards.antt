-- ===== src/Guards.antt =====
-- The guards of crates/sdkwork-web-core/src that reject a request or a route before its handler.
pub mod ContextSelectors
