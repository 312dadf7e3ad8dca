-- ===== src/Lob/FillSimulator.antt =====
-- src/lob/FillSimulator.{hpp,cpp}: an order of an engine takes the historical liquidity that the
-- engine can still see, best price first, and the rest of it becomes a synthetic order. The books
-- do not change during a call.
pub mod Offers
pub mod Steps
pub mod Fills
pub mod Submit
pub mod Refuse
use backtester_lab.Base.{
  ℕ, zero, suc, ◌+◌, ◌-◌, min, Bool, true, false, not, ◌&&◌, List, [], ◌∷◌, ◌++◌, Option, none,
  some, if◌then◌else◌, ◌==◌, nat_eq, ltb, length, u64,
}
use backtester_lab.Base.Int.{ℤ, ltb_ℤ}
use backtester_lab.Domain.{Side, side_beq, has_valid_side, has_valid_price}
use backtester_lab.Levels.{Levels, first_level}
use backtester_lab.Levels.Order.{less, greater}
use backtester_lab.Levels.Combine.{add_levels, remove_levels}
use backtester_lab.Map.{Map, find, insert}
use backtester_lab.Sides.{Sides}
use backtester_lab.Lob.HistoricalLob.{LobSnapshot}
use backtester_lab.Lob.Historical.{Historical, historical_snapshot}
use backtester_lab.Lob.EngineView.{
  EngineView, consumed_liquidity, consumed_bids, consumed_asks, reserve_synthetic_order_id,
  add_synthetic_order_with_id, consume_historical_liquidity,
}

pub record SimulatedOrderRequest : Type 0 where
  pub engine_id : ℕ
  pub instrument_id : ℕ
  pub side : Side
  pub limit_price : ℤ
  pub size : ℕ
  pub timestamp_ns : ℤ

pub record SimulatedFill : Type 0 where
  pub engine_id : ℕ
  pub instrument_id : ℕ
  pub order_id : ℕ
  pub side : Side
  pub price : ℤ
  pub size : ℕ
  pub timestamp_ns : ℤ

pub record SimulatedOrderResult : Type 0 where
  pub synthetic_order_id : ℕ
  pub requested_size : ℕ
  pub filled_size : ℕ
  pub remaining_size : ℕ
  pub fills : List SimulatedFill

abbrev pub EngineViews : Type 0
EngineViews = Map ℕ EngineView

unfoldable pub has_valid_request : SimulatedOrderRequest → Bool
has_valid_request request =
    not (request.instrument_id == 0)
    && (has_valid_side request.side && (has_valid_price request.limit_price && ltb 0 request.size))

unfoldable pub visible_historical_bids : LobSnapshot → EngineView → ℕ → Levels ℤ
visible_historical_bids snapshot view instrument_id =
    let levels =
      if snapshot.instrument_id == instrument_id then add_levels greater snapshot.bids [] else [] in
    let consumed = consumed_liquidity instrument_id view in
    remove_levels greater (consumed_bids (length consumed.bids) consumed) levels

unfoldable pub visible_historical_asks : LobSnapshot → EngineView → ℕ → Levels ℤ
visible_historical_asks snapshot view instrument_id =
    let levels =
      if snapshot.instrument_id == instrument_id then add_levels less snapshot.asks [] else [] in
    let consumed = consumed_liquidity instrument_id view in
    remove_levels less (consumed_asks (length consumed.asks) consumed) levels

unfoldable pub visible_historical_best_bid : LobSnapshot → EngineView → ℕ → Option (ℤ × ℕ)
visible_historical_best_bid snapshot view instrument_id =
    first_level (visible_historical_bids snapshot view instrument_id)

unfoldable pub visible_historical_best_ask : LobSnapshot → EngineView → ℕ → Option (ℤ × ℕ)
visible_historical_best_ask snapshot view instrument_id =
    first_level (visible_historical_asks snapshot view instrument_id)

unfoldable pub make_fill : SimulatedOrderRequest → ℕ → ℤ → ℕ → SimulatedFill
make_fill request order_id price size = record {
  engine_id = request.engine_id;
  instrument_id = request.instrument_id;
  order_id = order_id;
  side = request.side;
  price = price;
  size = size;
  timestamp_ns = request.timestamp_ns;
}

-- The variables of the loop: `view`, `remaining`, and two fields of `result`.
pub record Filling : Type 0 where
  pub view : EngineView
  pub remaining : ℕ
  pub filled_size : ℕ
  pub fills : List SimulatedFill

-- The end of each branch of the loop: a fill at the best level of the other side.
unfoldable pub take_level : SimulatedOrderRequest → ℕ → Side → ℤ × ℕ → Filling → Filling
take_level request order_id side best s =
    let fill_size = min s.remaining best.1 in
    record {
      view = consume_historical_liquidity request.instrument_id side best.0 fill_size s.view;
      remaining = s.remaining - fill_size;
      filled_size = u64 (s.filled_size + fill_size);
      fills = s.fills ++ (make_fill request order_id best.0 fill_size ∷ []);
    }

-- The body of the loop. `none` is `break`.
unfoldable pub fill_step : Historical → SimulatedOrderRequest → ℕ → Filling → Option Filling
fill_step historical request order_id s =
    let snapshot = historical_snapshot request.instrument_id historical in
    if side_beq request.side Side.bid
    then elim (visible_historical_best_ask snapshot s.view request.instrument_id) [
      | none ↦ none
      | some best ↦
          if ltb_ℤ request.limit_price best.0
          then none
          else some (take_level request order_id Side.ask best s)
    ]
    else elim (visible_historical_best_bid snapshot s.view request.instrument_id) [
      | none ↦ none
      | some best ↦
          if ltb_ℤ best.0 request.limit_price
          then none
          else some (take_level request order_id Side.bid best s)
    ]

-- `while (remaining > 0)`. `none` means that the fuel ran out.
unfoldable pub fill_loop : ℕ → Historical → SimulatedOrderRequest → ℕ → Filling → Option Filling
fill_loop zero historical request order_id s = none
fill_loop (suc fuel) historical request order_id s = elim (ltb 0 s.remaining) [
  | false ↦ some s
  | true ↦ elim (fill_step historical request order_id s) [
    | none ↦ some s
    | some next ↦ fill_loop fuel historical request order_id next
  ]
]

-- What a refused request gets.
abbrev pub no_result : SimulatedOrderRequest → SimulatedOrderResult
no_result request = record {
  synthetic_order_id = 0;
  requested_size = request.size;
  filled_size = 0;
  remaining_size = 0;
  fills = [];
}

-- `view` after the loop.
unfoldable pub rest_remaining : SimulatedOrderRequest → ℕ → Filling → EngineView
rest_remaining request order_id s =
    if ltb 0 s.remaining
    then add_synthetic_order_with_id order_id
        (record {
          instrument_id = request.instrument_id;
          side = request.side;
          price = request.limit_price;
          size = s.remaining;
          timestamp_ns = request.timestamp_ns;
        })
        s.view
    else s.view

-- The loop's variables before the loop.
unfoldable pub start_filling : SimulatedOrderRequest → EngineView → Filling
start_filling request view = record {
  view = (reserve_synthetic_order_id view).1;
  remaining = request.size;
  filled_size = 0;
  fills = [];
}

unfoldable pub submit_limit_order_result :
    ℕ
    → Historical
    → SimulatedOrderRequest
    → EngineViews
    → Option (SimulatedOrderResult × EngineViews)
submit_limit_order_result fuel historical request views =
    if not (has_valid_request request)
    then some (no_result request, views)
    else elim (find request.engine_id views) [
      | none ↦ some (no_result request, views)
      | some view ↦
          let order_id = (reserve_synthetic_order_id view).0 in
          elim (fill_loop fuel historical request order_id (start_filling request view)) [
            | none ↦ none
            | some s ↦ some (
              record {
                synthetic_order_id = order_id;
                requested_size = request.size;
                filled_size = s.filled_size;
                remaining_size = s.remaining;
                fills = s.fills;
              },
              insert request.engine_id (rest_remaining request order_id s) views,
            )
          ]
    ]
