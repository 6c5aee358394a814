-- ===== src/Access.antt =====
-- What a request must show to reach a protected handler (src/middleware/auth.rs).
pub mod Claims
pub mod Checks
pub mod Directory
pub mod Middleware
mod Examples
