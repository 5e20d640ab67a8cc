-- ===== src/Decoders.antt =====
-- The decoders of instruction and event data (decoders/*.ts).
pub mod Runtime
mod Tables
pub mod Utils
pub mod Instructions
pub mod Events
pub mod Index
