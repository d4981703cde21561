-- ===== src/Notify.antt =====
-- Notifications: who hears about an alert, and the queue that messages wait in until they are sent
-- (collector/notify.go and internal/store/notifications.go).
pub mod Channels
pub mod Queue
pub mod Deliver
pub mod Order
pub mod InOrder
pub mod Marks
pub mod Batch
pub mod Told
