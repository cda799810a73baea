-- ===== src/Materialization.antt =====
-- apps/api/src/materialization: from facts and groups to the documents on disk.
pub mod Rules
pub mod Merge
pub mod Classify
pub mod Queue
pub mod Drain
pub mod Renderer
pub mod Storage
pub mod Reconciler
