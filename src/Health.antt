-- ===== src/Health.antt =====
-- The health check of a deployment (scripts/deployment/health.ts).
pub mod Types
pub mod Checks
pub mod Registry
pub mod Perform
pub mod Laws
pub mod Counting
pub mod Overall
pub mod BigInt
