-- ===== src/Replication.antt =====
-- What Puppet servers report back, and what is made of it: compile-receipts.service.ts in
-- apps/api/src/replication and compile-currency.ts in apps/api/src/classification/pure.
pub mod Currency
pub mod Receipts
pub mod Ustar
pub mod Tree
