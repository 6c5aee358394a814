-- ===== src/Throttle.antt =====
-- The shared request state of src/state.rs: OAuth states, login lockout and request rate limits,
-- and the composition of them before a password login (src/handlers/auth.rs).
pub mod State
pub mod OauthState
pub mod Lockout
pub mod RateLimit
pub mod Login
mod Examples
