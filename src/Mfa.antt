-- ===== src/Mfa.antt =====
-- The second factor: TOTP credentials, their time steps, recent verifications and recovery codes
-- (src/db/mfa.rs, src/models/mfa.rs).
pub mod Tables
pub mod Totp
pub mod Codes
pub mod Recovery
mod Examples
