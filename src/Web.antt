-- ===== src/Web.antt =====
-- apps/web/src/lib: the pure parts of the console.
pub mod Diff
pub mod Collapse
