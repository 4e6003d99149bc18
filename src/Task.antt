-- ===== src/Task.antt =====
-- client_app/src/context/taskProvider.tsx: the execution of a transfer, step by step.
mod Platform
mod Step
mod Sender
mod Run
mod Provider
pub mod Ensures
pub mod Completes
pub mod Runs
pub mod Outcomes
mod Tests
pub use Platform.*
unfoldable pub use Step.*
unfoldable pub use Run.*
unfoldable pub use Provider.*
