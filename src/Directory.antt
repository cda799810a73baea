-- ===== src/Directory.antt =====
-- apps/api/src/directory: signing in against a directory.
pub mod Roles
pub mod Filter
