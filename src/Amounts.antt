-- ===== src/Amounts.antt =====
-- The conversion of amounts and the addresses of explorers (client_app/src/lib/utils.ts).
pub mod Convert
pub mod Value
mod Tests
