-- ===== src/Payments.antt =====
-- backend/src/contracts/transactions.ts, memo.ts and signing.ts: payments.
pub mod Memos
pub mod MultiSig
pub mod Signing
pub mod Validation
pub mod Submit
pub mod Signers
mod Examples
