-- ===== src/Resources.antt =====
-- Resources: the tree that a principal sees (src/db/resource.rs).
pub mod Tree
mod Examples
