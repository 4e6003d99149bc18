-- ===== src/Quote.antt =====
-- The quote of the pathfinder service (client_app/src/hooks/usePathfinderQuery.ts) and what is shown
-- of it (client_app/src/hooks/useRouteInfo.ts).
pub mod Hook
pub mod InFlight
pub mod Shown
pub mod Backed
pub mod Routes
pub mod Agreement
mod Tests
