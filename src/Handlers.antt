-- ===== src/Handlers.antt =====
-- internal/handlers: the HTTP handlers for jobs and for accounts.
pub mod Jobs
pub mod Accounts
