-- ===== src/Form.antt =====
-- The transfer form: client_app/src/hooks/useTransferFormState.ts, client_app/src/hooks/useDebounce.ts
-- and what client_app/src/components/ui/send/senderUi.tsx computes from them.
mod Address
pub mod Mirrors
pub mod Debounce
pub mod Answers
pub mod Chains
pub mod Network
pub mod Reachable
pub mod Submit
pub mod Ready
pub mod Starts
mod Tests
unfoldable pub use Address.*
