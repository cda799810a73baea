-- ===== src/Classification.antt =====
-- apps/api/src/classification/pure, the reports on groups and their conflicts.
pub mod Warnings
pub mod Conflicts
