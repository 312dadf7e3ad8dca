-- ===== src/Lob/HistoricalLobStore.antt =====
-- src/lob/HistoricalLobStore.{hpp,cpp}: one historical book per instrument. Every operation holds the
-- store's lock, so a call is one step. `stableStateDigest` is text output and is left out.
pub mod Preserve
use backtester_lab.Base.{
  ℕ, ◌+◌, [], ◌∷◌, Option, none, some, if◌then◌else◌, ◌==◌, ◌&&◌, nat_eq, u64,
}
use backtester_lab.Base.Int.{ℤ}
use backtester_lab.Domain.{Action, MarketDataEvent, action_beq}
use backtester_lab.Map.{Map, find, insert}
use backtester_lab.Lob.HistoricalLob
use backtester_lab.Lob.HistoricalLob.{HistoricalLob, LobSnapshot, empty_lob, resting_order_count}

abbrev pub HistoricalLobStore : Type 0
HistoricalLobStore = Map ℕ HistoricalLob

-- `books_[instrument_id]` makes a book where there is none.
abbrev pub book_at : ℕ → HistoricalLobStore → HistoricalLob
book_at instrument_id books = elim (find instrument_id books) [ none ↦ empty_lob | some b ↦ b ]

unfoldable pub apply : MarketDataEvent → HistoricalLobStore → HistoricalLobStore
apply event books =
    if action_beq event.action Action.clear && (event.instrument_id == 0)
    then []
    else if event.instrument_id == 0
    then books
    else insert event.instrument_id (HistoricalLob.apply event (book_at event.instrument_id books))
        books

unfoldable pub best_bid : ℕ → HistoricalLobStore → Option (ℤ × ℕ)
best_bid instrument_id books = elim (find instrument_id books) [
  | none ↦ none
  | some b ↦ HistoricalLob.best_bid b
]

unfoldable pub best_ask : ℕ → HistoricalLobStore → Option (ℤ × ℕ)
best_ask instrument_id books = elim (find instrument_id books) [
  | none ↦ none
  | some b ↦ HistoricalLob.best_ask b
]

unfoldable pub snapshot : ℕ → ℕ → HistoricalLobStore → LobSnapshot
snapshot instrument_id depth books = elim (find instrument_id books) [
  | none ↦ record { instrument_id = instrument_id; bids = []; asks = [] }
  | some b ↦ HistoricalLob.snapshot depth b
]

unfoldable pub book_snapshot : ℕ → HistoricalLobStore → HistoricalLob
book_snapshot instrument_id books = elim (find instrument_id books) [
  | none ↦ empty_lob
  | some b ↦ b
]

unfoldable pub total_resting_order_count : HistoricalLobStore → ℕ
total_resting_order_count [] = 0
total_resting_order_count ((instrument_id, b) ∷ books) =
    u64 (resting_order_count b + total_resting_order_count books)
