-- ===== src/Http.antt =====
-- backend/src/api/utils and backend/src/api/middleware: what requests pass before and around the
-- routes.
pub mod Pages
pub mod Tokens
pub mod Guards
pub mod Idempotency
pub mod SignIn
pub mod Webhook
mod Examples
