-- ===== src/Transfer.antt =====
-- client_app/src/context/transferContext.tsx: the state of a transfer, its reducer, and the steps
-- that a quoted route turns into.
mod Types
mod Reducer
mod Steps
pub mod Phases
pub mod Selection
pub mod Progress
pub mod Chained
pub mod Modes
mod Tests
pub use Types.*
unfoldable pub use Reducer.*
unfoldable pub use Steps.*
