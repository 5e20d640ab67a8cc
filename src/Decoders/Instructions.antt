-- ===== src/Decoders/Instructions.antt =====
-- decoders/instructions.ts. `Runtime` stands for what Node does and the repository does not show.
mod Types
mod Fields
pub mod Dispatch
pub mod RoundTrip
pub mod Truncated
pub use Types.*
unfoldable pub use Fields.*
