-- ===== src/Verify.antt =====
-- The deployment verifier of scripts/deployment/verify.ts.
pub mod Types
pub mod Checks
pub mod Run
