-- ===== src/Wallet.antt =====
-- The wallets: the provider's connections (client_app/src/context/walletContext.tsx) and the search for
-- a wallet extension (client_app/src/lib/wallets/walletUtility.ts).
pub mod Utility
pub mod Storage
pub mod Provider
pub mod Saved
pub mod OneWallet
pub mod Kept
pub mod Connected
pub mod Send
pub mod Quiet
pub mod Signs
mod Tests
