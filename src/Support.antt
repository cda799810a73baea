-- ===== src/Support.antt =====
-- apps/api/src/support/pure, what goes into a support bundle.
pub mod Window
pub mod Cap
