-- ===== src/Tests.antt =====
-- Concrete runs of the models, and the theorems at concrete inputs.
pub mod Routing
pub mod Stores
pub mod Chains
pub mod Scopes
pub mod Security
pub mod Pipeline
pub mod Resolvers
pub mod Idempotency
