-- ===== src/Notifications.antt =====
-- apps/api/src/notifications: the alerts about the deployment's health.
pub mod Lifecycle
