-- ===== src/Tracking.antt =====
-- client_app/src/hooks/useIbcTracking.ts and client_app/src/hooks/ibcTracking: following an IBC
-- transfer by its packets.
mod Types
mod Util
mod Hook
pub mod Queries
pub mod Receive
pub mod Confirmation
pub mod Hops
pub mod Callback
pub mod Bounds
mod Tests
pub use Types.*
unfoldable pub use Util.*
unfoldable pub use Hook.*
