-- ===== src/Machine.antt =====
-- Machine identities: devices, services and their API keys (src/db/machine.rs).
pub mod ApiKey
pub mod Tables
pub mod Scope
pub mod Credentials
pub mod Verification
mod Examples
