-- ===== src/Keys.antt =====
-- The signing keys and their rotation (src/models/jwt.rs).
pub mod Jose
pub mod Pair
pub mod Loaded
pub mod Ring
pub mod Tokens
mod Examples
