-- ===== src/Processing.antt =====
-- src/processing: the processors of events.
pub mod Router
mod Tests
