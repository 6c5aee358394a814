-- ===== src/Organizations.antt =====
-- Organizations: their managers, memberships and lifecycle (src/db/organization.rs).
pub mod Tables
pub mod Managers
pub mod Membership
pub mod Status
mod Examples
