-- ===== src/Rest.antt =====
-- The queries that the client makes of the chains' REST endpoints
-- (client_app/src/lib/apiQueries/fetchApiData.ts), and the tracking over them.
pub mod Platform
pub mod Fetch
pub mod Answers
mod Tests
