-- ===== src/Notification.antt =====
-- The notification module (internal/modules/notification).
pub mod Notice
pub mod Handler
