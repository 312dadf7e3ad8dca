-- ===== src/Sides.antt =====
-- The two price maps `bids_` and `asks_` that LimitOrderBook, HistoricalLOB and SyntheticBook each
-- keep, and the `addLevelVolume` and `removeLevelVolume` that the three classes repeat.
pub mod Laws
pub mod Aggregate
use backtester_lab.Base.{ℕ, Bool, false, [], ◌==◌}
use backtester_lab.Base.Int.{ℤ, int_eq}
use backtester_lab.Domain.{Side}
use backtester_lab.Levels.{Levels, add_level, remove_level, volume}
use backtester_lab.Levels.Order.{less, greater}

pub record Sides : Type 0 where
  pub bids : Levels ℤ
  pub asks : Levels ℤ

abbrev pub no_levels : Sides
no_levels = record { bids = []; asks = [] }

unfoldable pub add_volume : Side → ℤ → ℕ → Sides → Sides
add_volume Side.bid price size s = record s { bids = add_level greater price size s.bids }
add_volume Side.ask price size s = record s { asks = add_level less price size s.asks }
add_volume Side.none price size s = s

unfoldable pub remove_volume : Side → ℤ → ℕ → Sides → Sides
remove_volume Side.bid price size s = record s { bids = remove_level greater price size s.bids }
remove_volume Side.ask price size s = record s { asks = remove_level less price size s.asks }
remove_volume Side.none price size s = s

unfoldable pub volume_on : Side → ℤ → Sides → ℕ
volume_on Side.bid price s = volume greater price s.bids
volume_on Side.ask price s = volume less price s.asks
volume_on Side.none price s = 0

-- Whether an order on side `t` at price `q` counts at the level of side `s` and price `p`.
unfoldable pub same_level : Side → ℤ → Side → ℤ → Bool
same_level Side.bid p Side.bid q = p == q
same_level Side.ask p Side.ask q = p == q
same_level _ p _ q = false
