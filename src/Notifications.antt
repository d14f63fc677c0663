-- ===== src/Notifications.antt =====
-- apps/notifications: the notifications of one recipient, and the dispatch of their emails.
pub mod Data
pub mod Delivery
pub mod Drain
pub mod Attempts
pub mod Emails
pub mod Budget
pub mod Feed
pub mod Dedup
pub mod Tests
