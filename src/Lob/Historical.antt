-- ===== src/Lob/Historical.antt =====
-- src/lob/FillSimulator.cpp and src/lob/SimulatedLOB.cpp: the historical side that both read. An
-- object of either class holds a pointer to one book or to a store.
pub mod Valid
use backtester_lab.Base.{ℕ, ◌-◌, [], if◌then◌else◌, ◌==◌, nat_eq, u64_mod}
use backtester_lab.Lob.HistoricalLob
use backtester_lab.Lob.HistoricalLob.{HistoricalLob, LobSnapshot}
use backtester_lab.Lob.HistoricalLobStore
use backtester_lab.Lob.HistoricalLobStore.{HistoricalLobStore}

-- Which of `historical_` and `store_` is set.
pub data Historical : Type 0 where
  one_book : HistoricalLob → Historical
  books : HistoricalLobStore → Historical

-- `std::numeric_limits<std::size_t>::max()`
abbrev pub all_levels : ℕ
all_levels = u64_mod - 1

unfoldable pub historical_snapshot : ℕ → Historical → LobSnapshot
historical_snapshot instrument_id (one_book b) =
    let snapshot = HistoricalLob.snapshot all_levels b in
    if snapshot.instrument_id == instrument_id
    then snapshot
    else record { instrument_id = instrument_id; bids = []; asks = [] }
historical_snapshot instrument_id (books store) =
    HistoricalLobStore.snapshot instrument_id all_levels store
