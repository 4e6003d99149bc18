-- ===== src/IndexDb.antt =====
-- client_app/src/lib/indexDb/dbManager.ts: the history of transactions in IndexedDB.
mod Types
mod Store
mod Manager
pub mod Updates
pub mod History
pub mod Cleanup
pub mod Memory
pub mod Shown
pub mod Merged
pub mod Refreshed
mod Tests
pub use Types.*
pub use Store.*
unfoldable pub use Manager.*
