-- ===== src/Oidc.antt =====
-- OpenID Connect: authorization requests, PKCE and authorization codes (src/models/oidc.rs, src/db/oidc.rs).
pub mod Requests
pub mod Codes
mod Examples
