-- ===== src/Deploy.antt =====
-- The deployment orchestrator of scripts/deployment/deploy.ts.
pub mod Types
pub mod Output
pub mod Phases
pub mod Run
