-- ===== src/Tests.antt =====
-- Tests of the definitions, and examples of the theorems at concrete inputs.
pub mod Decoders
pub mod Events
pub mod Setup
pub mod Health
pub mod Network
pub mod Deploy
pub mod Verify
pub mod Env
