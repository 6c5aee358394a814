-- ===== src/Accounts.antt =====
-- Accounts: the one-time proofs that reset a password (src/db/password_reset.rs) or verify an
-- address (src/db/email_verification.rs).
pub mod Tables
pub mod Reset
pub mod Verification
pub mod Proofs
mod Examples
