-- ===== src/Lob/Historical/Valid.antt =====
-- The levels of a snapshot of valid historical books.
use backtester_lab.Base.{
  ℕ, ◌≡◌, refl, [], ◌==◌, nat_eq, nat_beq_iff, Bool-cases, Option-cases, inl, inr,
}
use backtester_lab.Levels.Order.{less, greater, less-StrictOrder, greater-StrictOrder}
use backtester_lab.Levels.Best.{copy_levels-take}
use backtester_lab.Levels.Combine.{take-IsLadder}
use backtester_lab.Map.{find}
use backtester_lab.Sides.{Sides}
use backtester_lab.Sides.Laws.{IsLadders}
use backtester_lab.Lob.HistoricalLob
use backtester_lab.Lob.HistoricalLob.{HistoricalLob, LobSnapshot}
use backtester_lab.Lob.HistoricalLob.Preserve.{IsValidLob}
use backtester_lab.Lob.HistoricalLobStore
use backtester_lab.Lob.HistoricalLobStore.{HistoricalLobStore}
use backtester_lab.Lob.HistoricalLobStore.Preserve.{IsStore, snapshot-instrument}
use backtester_lab.Lob.Historical.{Historical, one_book, books, all_levels, historical_snapshot}

-- The book is valid, or the store is.
unfoldable pub IsHistorical : Historical → Type 0
IsHistorical (one_book b) = IsValidLob b
IsHistorical (books store) = IsStore store

-- The two sides of a snapshot.
abbrev pub sides_of : LobSnapshot → Sides
sides_of snapshot = record { bids = snapshot.bids; asks = snapshot.asks }

empty-IsLadders :
    (i : ℕ) → IsLadders (sides_of (record { instrument_id = i; bids = []; asks = [] }))
empty-IsLadders i = record { bids = tt; asks = tt }

pub snapshot-IsLadders :
    (depth : ℕ) (b : HistoricalLob)
    → IsValidLob b
    → IsLadders (sides_of (HistoricalLob.snapshot depth b))
unfolding HistoricalLob.snapshot HistoricalLob.bids HistoricalLob.asks
snapshot-IsLadders depth b v = record {
  bids =
      rw (copy_levels-take depth b.levels.bids)
        (take-IsLadder greater greater-StrictOrder depth b.levels.bids v.sums.ladders.bids);
  asks =
      rw (copy_levels-take depth b.levels.asks)
        (take-IsLadder less less-StrictOrder depth b.levels.asks v.sums.ladders.asks);
}

store_snapshot-IsLadders :
    (i depth : ℕ) (store : HistoricalLobStore)
    → IsStore store
    → IsLadders (sides_of (HistoricalLobStore.snapshot i depth store))
unfolding HistoricalLobStore.snapshot
store_snapshot-IsLadders i depth store v = elim (Option-cases (find i store)) [
  | inl missing ↦ rw (missing, HistoricalLobStore.snapshot) (empty-IsLadders i)
  | inr (b, found) ↦
      rw (found, HistoricalLobStore.snapshot) (snapshot-IsLadders depth b (v i b found).valid)
]

-- The levels of a snapshot of valid books are in order and positive, and it names the instrument
-- that was asked for.
pub historical_snapshot-IsLadders :
    (i : ℕ) (h : Historical)
    → IsHistorical h
    → ((historical_snapshot i h).instrument_id ≡ i) × IsLadders (sides_of (historical_snapshot i h))
unfolding historical_snapshot IsHistorical
historical_snapshot-IsLadders i (one_book b) v =
    elim (Bool-cases ((HistoricalLob.snapshot all_levels b).instrument_id == i)) [
      | inl same ↦ rw same (
        (nat_beq_iff (HistoricalLob.snapshot all_levels b).instrument_id i).0 same,
        snapshot-IsLadders all_levels b v,
      )
      | inr other ↦ rw other (refl, empty-IsLadders i)
    ]
historical_snapshot-IsLadders i (books store) v =
    (snapshot-instrument i all_levels store v, store_snapshot-IsLadders i all_levels store v)
