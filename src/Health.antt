-- ===== src/Health.antt =====
-- The health of the chains' endpoints: the server's route (client_app/src/app/api/health/route.ts) and
-- the client's choice among the endpoints (client_app/src/lib/apiQueries/featchHealthyEndpoint.ts).
pub mod Checks
pub mod Endpoints
pub mod Listed
pub mod Route
pub mod Cache
pub mod Reuse
pub mod Client
mod Tests
