-- ===== src/Lob/EngineView.antt =====
-- src/lob/EngineView.{hpp,cpp}: what one trading engine sees besides the historical books: its own
-- resting orders, and the historical liquidity that it has taken. Every operation holds the view's
-- lock, so a call is one step.
pub mod Sums
pub mod Preserve
use backtester_lab.Base.{
  ℕ, ◌+◌, Bool, not, ◌&&◌, ◌||◌, List, [], Option, none, some, if◌then◌else◌, ◌==◌, nat_eq, u64,
}
use backtester_lab.Base.Int.{ℤ}
use backtester_lab.Domain.{Side, has_valid_side, is_defined_price}
use backtester_lab.Levels.{Levels, first_level, copy_levels}
use backtester_lab.Map.{Map, find, insert, erase}
use backtester_lab.Sides.{Sides, no_levels, add_volume, remove_volume, volume_on}

pub record SyntheticOrder : Type 0 where
  pub instrument_id : ℕ
  pub side : Side
  pub price : ℤ
  pub size : ℕ
  pub timestamp_ns : ℤ

-- `SyntheticBook` and `ConsumedLiquidityBook` hold the same two maps.
abbrev pub SyntheticBook : Type 0
SyntheticBook = Sides

abbrev pub ConsumedLiquidityBook : Type 0
ConsumedLiquidityBook = Sides

pub record EngineView : Type 0 where
  pub engine_id : ℕ
  pub next_order_id : ℕ
  pub own_orders : Map ℕ SyntheticOrder
  pub synthetic_books : Map ℕ SyntheticBook
  pub consumed_historical_liquidity : Map ℕ ConsumedLiquidityBook

unfoldable pub new_view : ℕ → EngineView
new_view engine_id = record {
  engine_id = engine_id;
  next_order_id = 1;
  own_orders = [];
  synthetic_books = [];
  consumed_historical_liquidity = [];
}

unfoldable pub synthetic_best_bid : SyntheticBook → Option (ℤ × ℕ)
synthetic_best_bid s = first_level s.bids

unfoldable pub synthetic_best_ask : SyntheticBook → Option (ℤ × ℕ)
synthetic_best_ask s = first_level s.asks

unfoldable pub synthetic_bids : ℕ → SyntheticBook → Levels ℤ
synthetic_bids depth s = copy_levels depth 0 s.bids

unfoldable pub synthetic_asks : ℕ → SyntheticBook → Levels ℤ
synthetic_asks depth s = copy_levels depth 0 s.asks

unfoldable pub consume : Side → ℤ → ℕ → ConsumedLiquidityBook → ConsumedLiquidityBook
consume side price size s = add_volume side price size s

unfoldable pub consumed_at : Side → ℤ → ConsumedLiquidityBook → ℕ
consumed_at side price s = volume_on side price s

unfoldable pub consumed_bids : ℕ → ConsumedLiquidityBook → Levels ℤ
consumed_bids depth s = copy_levels depth 0 s.bids

unfoldable pub consumed_asks : ℕ → ConsumedLiquidityBook → Levels ℤ
consumed_asks depth s = copy_levels depth 0 s.asks

-- A copy of the book of an instrument, empty where there is none.
unfoldable pub synthetic_book : ℕ → EngineView → SyntheticBook
synthetic_book instrument_id v = elim (find instrument_id v.synthetic_books) [
  | none ↦ no_levels
  | some s ↦ s
]

unfoldable pub consumed_liquidity : ℕ → EngineView → ConsumedLiquidityBook
consumed_liquidity instrument_id v = elim (find instrument_id v.consumed_historical_liquidity) [
  | none ↦ no_levels
  | some s ↦ s
]

unfoldable pub has_valid_synthetic_order : Side → ℤ → ℕ → Bool
has_valid_synthetic_order side price size =
    has_valid_side side && (is_defined_price price && not (size == 0))

unfoldable pub add_synthetic_order_with_id : ℕ → SyntheticOrder → EngineView → EngineView
unfolding synthetic_book
add_synthetic_order_with_id order_id order v = record v {
  own_orders = insert order_id order v.own_orders;
  synthetic_books =
      insert order.instrument_id
        (add_volume order.side order.price order.size (synthetic_book order.instrument_id v))
        v.synthetic_books;
}

unfoldable pub reserve_synthetic_order_id : EngineView → ℕ × EngineView
reserve_synthetic_order_id v =
    (v.next_order_id, record v { next_order_id = u64 (v.next_order_id + 1) })

unfoldable pub add_synthetic_order : SyntheticOrder → EngineView → ℕ × EngineView
unfolding has_valid_synthetic_order reserve_synthetic_order_id add_synthetic_order_with_id
add_synthetic_order order v =
    if (order.instrument_id == 0)
      || not (has_valid_synthetic_order order.side order.price order.size)
    then (0, v)
    else (
      v.next_order_id,
      add_synthetic_order_with_id v.next_order_id order (reserve_synthetic_order_id v).1,
    )

unfoldable pub cancel_synthetic_order : ℕ → EngineView → EngineView
unfolding synthetic_book
cancel_synthetic_order order_id v = elim (find order_id v.own_orders) [
  | none ↦ v
  | some order ↦ record v {
    synthetic_books =
        insert order.instrument_id
          (remove_volume order.side order.price order.size (synthetic_book order.instrument_id v))
          v.synthetic_books;
    own_orders = erase order_id v.own_orders;
  }
]

unfoldable pub consume_historical_liquidity : ℕ → Side → ℤ → ℕ → EngineView → EngineView
unfolding consumed_liquidity consume
consume_historical_liquidity instrument_id side price size v =
    if (instrument_id == 0) || (size == 0) then v else record v {
      consumed_historical_liquidity =
          insert instrument_id (consume side price size (consumed_liquidity instrument_id v))
            v.consumed_historical_liquidity;
    }
