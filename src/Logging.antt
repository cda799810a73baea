-- ===== src/Logging.antt =====
-- apps/api/src/common, what is written to the log.
pub mod Throttle
