-- ===== src/Lob/SimulatedLob.antt =====
-- src/lob/SimulatedLOB.{hpp,cpp}: the book as one engine sees it: the historical levels, less what
-- the engine has taken, with the engine's own resting orders.
pub mod Volumes
use backtester_lab.Base.{ℕ, [], Option, if◌then◌else◌, ◌==◌, nat_eq, length}
use backtester_lab.Base.Int.{ℤ}
use backtester_lab.Levels.{Levels, first_level, copy_levels}
use backtester_lab.Levels.Order.{less, greater}
use backtester_lab.Levels.Combine.{add_levels, remove_levels}
use backtester_lab.Sides.{Sides}
use backtester_lab.Lob.HistoricalLob.{LobSnapshot}
use backtester_lab.Lob.Historical.{Historical, historical_snapshot}
use backtester_lab.Lob.EngineView.{
  EngineView, consumed_liquidity, consumed_bids, consumed_asks, synthetic_book, synthetic_bids,
  synthetic_asks,
}

-- `topLevels`
unfoldable pub top_levels : Levels ℤ → ℕ → Levels ℤ
top_levels levels depth = copy_levels depth 0 levels

unfoldable pub visible_bids : LobSnapshot → EngineView → ℕ → Levels ℤ
visible_bids snapshot view instrument_id =
    let levels =
      if snapshot.instrument_id == instrument_id then add_levels greater snapshot.bids [] else [] in
    let consumed = consumed_liquidity instrument_id view in
    let left = remove_levels greater (consumed_bids (length consumed.bids) consumed) levels in
    let synthetic = synthetic_book instrument_id view in
    add_levels greater (synthetic_bids (length synthetic.bids) synthetic) left

unfoldable pub visible_asks : LobSnapshot → EngineView → ℕ → Levels ℤ
visible_asks snapshot view instrument_id =
    let levels =
      if snapshot.instrument_id == instrument_id then add_levels less snapshot.asks [] else [] in
    let consumed = consumed_liquidity instrument_id view in
    let left = remove_levels less (consumed_asks (length consumed.asks) consumed) levels in
    let synthetic = synthetic_book instrument_id view in
    add_levels less (synthetic_asks (length synthetic.asks) synthetic) left

unfoldable pub best_bid : Historical → EngineView → ℕ → Option (ℤ × ℕ)
best_bid historical view instrument_id =
    first_level (visible_bids (historical_snapshot instrument_id historical) view instrument_id)

unfoldable pub best_ask : Historical → EngineView → ℕ → Option (ℤ × ℕ)
best_ask historical view instrument_id =
    first_level (visible_asks (historical_snapshot instrument_id historical) view instrument_id)

unfoldable pub snapshot : Historical → EngineView → ℕ → ℕ → LobSnapshot
unfolding top_levels
snapshot historical view instrument_id depth =
    let seen = historical_snapshot instrument_id historical in
    record {
      instrument_id = instrument_id;
      bids = top_levels (visible_bids seen view instrument_id) depth;
      asks = top_levels (visible_asks seen view instrument_id) depth;
    }
