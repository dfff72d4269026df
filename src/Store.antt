-- ===== src/Store.antt =====
-- components/sms_store: the durable store of messages.
pub mod Message
pub mod Slots
pub mod Operations
pub mod Listing
