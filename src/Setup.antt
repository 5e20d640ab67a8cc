-- ===== src/Setup.antt =====
-- Post-deployment setup (scripts/deployment/setup.ts): gateways, counters and signer registries are
-- initialised on chain, each by one instruction.
pub mod Types
pub mod Cluster
pub mod Build
pub mod Session
pub mod Run
pub mod Config
