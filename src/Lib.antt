-- ===== src/Lib.antt =====
-- Models of the request pipeline's own logic in sdkwork-web-framework (crates/), with the theorems
-- that make it correct.
--
-- The pipeline of a call (Pipeline) runs its stages in order over the state of the call. The path is
-- classified (Surface) and matched against the manifest of routes (Manifest, whose routes and checks
-- are Contract's); the security policy checks origins, cookies, sizes and content (Security); the
-- limits charge the stores of the process (Pipeline.Limits over Stores); the credentials are resolved
-- to a principal (Pipeline.Resolution, with OpenApiAuth for open-api and Contract's profiles), whose
-- permissions (Principal) and path are checked (Pipeline.Isolation). The authorization scope of a
-- principal is materialized through a cache (AuthzScope over PolicyCache). The call chain (Chain)
-- composes guards around an operation; its concurrency stage uses the admission store of Stores.
-- Guards refuses context selectors. Http and Errors hold requests and errors, Trace and Hashing the
-- trace identifiers and key digests, Base what all parts share, Tests the theorems at concrete inputs.
--
--  * Errors: crates/sdkwork-web-core/src/error.rs.
--  * Contract, Contract.Validation: crates/sdkwork-web-contract/src/lib.rs.
--  * Surface: crates/sdkwork-web-core/src/surface.rs, constants.rs, the profile of request_context.rs.
--  * Manifest and its children: crates/sdkwork-web-core/src/route_manifest.rs, where match_route and
--    the template matching are in Manifest, the start-up checks in Manifest.Validation and
--    try_merge_mounts in Manifest.Merge.
--  * Guards.ContextSelectors: crates/sdkwork-web-core/src/client_context_guard.rs.
--  * Stores.Admission, Stores.RateLimit, Stores.Idempotency: the memory stores of
--    crates/sdkwork-web-core/src/stores.rs; each method is a function from the map to the map and the
--    answer, since the lock makes it one step. Stores.Idempotency.Guard is IdempotencyGuard, and
--    Stores.RateLimit.Tiers is crates/sdkwork-web-core/src/rate_limit.rs.
--  * Http, Http.Extractors, Hashing, Trace: crates/sdkwork-web-core/src/extractors.rs, hashing.rs and
--    trace.rs.
--  * Security: the policies and defaults of crates/sdkwork-web-core/src/security.rs and the list of
--    registered_client_origins.rs; Security.Cors, Security.Requests, Security.Credentials and
--    Security.SqlInjection are its checks, Security.ResponseHeaders what it puts on a response, Security.ConsoleHosts is registered_console_hosts.rs.
--  * Resolvers: the resolution of two tokens, crates/sdkwork-web-core/src/resolvers.rs, with the claims of
--    parsers.rs.
--  * OpenApiAuth: crates/sdkwork-web-core/src/open_api_auth.rs.
--  * Pipeline: the interceptor chain of crates/sdkwork-web-core/src/api_chain.rs, for interceptors over
--    any state of their own (X and Y); Pipeline.State and Pipeline.Keys are WebCallState and its keys,
--    Pipeline.Resolution (with Pipeline.Compatibility), Pipeline.Limits, Pipeline.Idempotency and Pipeline.Isolation the stages of
--    interceptors.rs for resolution and authentication, rate limits, idempotency (with idempotency.rs),
--    and authorization and tenant isolation (with path_resource_guard.rs and policies.rs).
--  * PolicyCache: crates/sdkwork-web-core/src/policy_cache.rs and the contexts of its three sources.
--  * Principal, Principal.Context, Principal.Permissions: crates/sdkwork-web-core/src/request_context.rs.
--  * AuthzScope: crates/sdkwork-web-core/src/authz_scope.rs.
--  * Chain, Chain.Policy, Chain.Concurrency, Chain.IpAccess: crates/sdkwork-web-chain/src, one file
--    each. A stage is a record of its hooks over a state; the loops of CallChain are recursions on the
--    list of stages.
--
-- Texts are lists of code points. A HashMap is an association list. Instants and durations are
-- nanoseconds as natural numbers, `duration_since` is a subtraction that stops at 0, and what reads the
-- clock takes the instant as an argument. Counters (u32, u64, usize) are natural numbers: each is
-- bounded by a limit of its own type before it is raised, or counts things in memory. All recursions
-- are structural; the only fuel is that of the decimal print, which has the number itself.
--
-- Parameters stand for what is not in the repository: serde_json (Contract.Validation.Json), the
-- addresses and networks of std and ipnet (Chain.IpAccess.Network), the URIs, methods, header values,
-- addresses and percent decoding of http, std and percent_encoding (Http.HttpLibrary), a header map
-- (Http.HeaderMap), collapse_duplicate_surface_prefix of sdkwork_utils_rust, the text that a Debug
-- print quotes, the resolver of principals (OpenApiAuth.Resolver) and the
-- parsers of tokens (Resolvers.TokenParsers), the source of scopes and the sources
-- behind the policy caches, which applications implement.
--
-- Not modelled: of the interceptors, the stages of classification, cors, sizes and logging as wholes
-- (what they call is), the responses that the after hooks of other stages than idempotency write, and
-- the emission of security events (emitters succeed); dynamic sources are read only as the overlays
-- that the state of a call holds. JWT claims and the verification of tokens, API keys and OAuth
-- records, problem responses, the production assembly, metrics, websockets, axum and bootstrap glue, the SQL and Redis
-- stores, the schema registry, the admin API and OpenAPI documents are left: they parse with, or write
-- to, libraries and servers, or stand in the plan. Logging is left out throughout.
pub mod Base
pub mod Errors
pub mod Hashing
pub mod Http
pub mod Trace
pub mod Contract
pub mod Surface
pub mod Security
pub mod Manifest
pub mod Guards
pub mod Stores
pub mod PolicyCache
pub mod Principal
pub mod AuthzScope
pub mod OpenApiAuth
pub mod Resolvers
pub mod Pipeline
pub mod Chain
pub mod Tests
