-- ===== src/Network.antt =====
-- The network manager of scripts/deployment/network-manager.ts.
pub mod Toml
pub mod Types
pub mod System
pub mod Console
pub mod Config
pub mod Keypair
pub mod Anchor
pub mod Manager
