-- ===== src/Book.antt =====
-- src/book: the order book of one instrument, and the manager of all books.
pub mod LimitOrderBook
pub mod BookManager
mod Tests
