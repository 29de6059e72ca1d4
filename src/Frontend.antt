-- ===== src/Frontend.antt =====
-- frontend/src: the page buttons, the page in the URL, the dropdown and the toasts.
pub mod PageRange
pub mod UrlPage
pub mod Select
pub mod Toasts
mod Examples
