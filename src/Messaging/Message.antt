-- ===== src/Messaging/Message.antt =====
-- src/messaging/MarketDataMessage.hpp
use backtester_lab.Base.{ℕ, List}
use backtester_lab.Base.Int.{ℤ}
use backtester_lab.Domain.{Side}

pub record PriceLevel : Type 0 where
  pub level_index : ℕ
  pub price : ℤ
  pub size : ℕ

pub record BookUpdate : Type 0 where
  pub instrument_id : ℕ
  pub timestamp_ns : ℤ
  pub seq_no : ℕ
  pub side : Side
  pub price : ℤ
  pub size : ℕ

pub record BookSnapshot : Type 0 where
  pub instrument_id : ℕ
  pub timestamp_ns : ℤ
  pub seq_no : ℕ
  pub bids : List PriceLevel
  pub asks : List PriceLevel

pub record Trade : Type 0 where
  pub instrument_id : ℕ
  pub timestamp_ns : ℤ
  pub seq_no : ℕ
  pub price : ℤ
  pub size : ℕ
  pub aggressor_side : Side

-- `std::variant<BookUpdate, BookSnapshot, Trade>`.
pub data MarketDataMessage : Type 0 where
  book_update : BookUpdate → MarketDataMessage
  book_snapshot : BookSnapshot → MarketDataMessage
  trade : Trade → MarketDataMessage

unfoldable pub instrument_of : MarketDataMessage → ℕ
instrument_of (MarketDataMessage.book_update m) = m.instrument_id
instrument_of (MarketDataMessage.book_snapshot m) = m.instrument_id
instrument_of (MarketDataMessage.trade m) = m.instrument_id

unfoldable pub seq_no_of : MarketDataMessage → ℕ
seq_no_of (MarketDataMessage.book_update m) = m.seq_no
seq_no_of (MarketDataMessage.book_snapshot m) = m.seq_no
seq_no_of (MarketDataMessage.trade m) = m.seq_no
