-- ===== src/Env.antt =====
-- The environment manager of scripts/deployment/env-manager.ts.
pub mod Types
pub mod Profiles
pub mod Files
pub mod Manager
