-- ===== src/Stellar.antt =====
-- backend/src/contracts: what the backend does around its calls of the Stellar network.
pub mod TimeBounds
pub mod Retry
pub mod Sequence
pub mod Trustlines
pub mod Batch
pub mod Blame
pub mod Errors
mod Examples
