-- ===== src/Inventory.antt =====
-- apps/api/src/inventory/pure, what the console shows of resources.
pub mod Differing
pub mod Grouping
