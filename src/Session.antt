-- ===== src/Session.antt =====
-- Refresh sessions: rotation of one-time refresh tokens, replay detection and revocation
-- (src/db/refresh_session.rs over the tables of migrations/).
pub mod Tables
pub mod Context
pub mod Lifecycle
pub mod Revocation
pub mod Runs
pub mod Policy
mod Examples
