-- ===== src/Messaging.antt =====
-- src/messaging: numbered messages on market data, their publisher, and the detector of gaps.
pub mod Message
pub mod Publisher
pub mod GapDetector
pub mod Numbers
pub mod Delivery
pub mod Queues
pub mod Continuity
mod Tests
