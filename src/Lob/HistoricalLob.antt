-- ===== src/Lob/HistoricalLob.antt =====
-- src/lob/HistoricalLOB.{hpp,cpp}: a book of the historical feed, whose orders keep their instrument.
pub mod Preserve
use backtester_lab.Base.{
  ℕ, ◌-◌, min, Bool, List, [], ◌∷◌, Option, none, some, if◌then◌else◌, ◌==◌, length, nat_eq,
}
use backtester_lab.Base.Int.{ℤ}
use backtester_lab.Domain.{Side, Action, MarketDataEvent, has_valid_resting_state}
use backtester_lab.Levels.{Levels, first_level, copy_levels}
use backtester_lab.Map.{Map, find, insert, erase}
use backtester_lab.Sides.{Sides, no_levels, add_volume, remove_volume}

pub record HistoricalOrder : Type 0 where
  pub instrument_id : ℕ
  pub side : Side
  pub price : ℤ
  pub quantity : ℕ

-- `levels` holds `bids_` and `asks_`.
pub record HistoricalLob : Type 0 where
  pub instrument_id : ℕ
  pub levels : Sides
  pub orders_by_id : Map ℕ HistoricalOrder

pub record LobSnapshot : Type 0 where
  pub instrument_id : ℕ
  pub bids : Levels ℤ
  pub asks : Levels ℤ

abbrev pub empty_lob : HistoricalLob
empty_lob = record { instrument_id = 0; levels = no_levels; orders_by_id = [] }

unfoldable pub remove_order : ℕ → HistoricalLob → HistoricalLob
remove_order order_id b = elim (find order_id b.orders_by_id) [
  | none ↦ b
  | some order ↦ record b {
    levels = remove_volume order.side order.price order.quantity b.levels;
    orders_by_id = erase order_id b.orders_by_id;
  }
]

-- The order that an event states.
abbrev pub order_of : MarketDataEvent → HistoricalOrder
order_of event = record {
  instrument_id = event.instrument_id;
  side = event.side;
  price = event.price;
  quantity = event.size;
}

-- The end of `applyAdd` and of `applyModify`: the order, and then its volume.
unfoldable pub place_order : MarketDataEvent → HistoricalLob → HistoricalLob
place_order event b = record b {
  orders_by_id = insert event.order_id (order_of event) b.orders_by_id;
  levels = add_volume event.side event.price event.size b.levels;
}

unfoldable pub apply_add : MarketDataEvent → HistoricalLob → HistoricalLob
unfolding remove_order
apply_add event b =
    if has_valid_resting_state event then place_order event (remove_order event.order_id b) else b

unfoldable pub apply_modify : MarketDataEvent → HistoricalLob → HistoricalLob
apply_modify event b = elim (find event.order_id b.orders_by_id) [
  | none ↦ b
  | some order ↦
      if has_valid_resting_state event
      then place_order event
          (record b { levels = remove_volume order.side order.price order.quantity b.levels })
      else b
]

-- `cancel_quantity`.
unfoldable pub cancel_quantity : ℕ → HistoricalOrder → ℕ
cancel_quantity size order = if size == 0 then order.quantity else min size order.quantity

unfoldable pub apply_cancel : MarketDataEvent → HistoricalLob → HistoricalLob
unfolding cancel_quantity
apply_cancel event b = elim (find event.order_id b.orders_by_id) [
  | none ↦ b
  | some order ↦
      let left = order.quantity - cancel_quantity event.size order in
      let b' = record b {
        levels = remove_volume order.side order.price (cancel_quantity event.size order) b.levels;
      } in
      if left == 0
      then record b' { orders_by_id = erase event.order_id b'.orders_by_id }
      else record b' {
        orders_by_id = insert event.order_id (record order { quantity = left }) b'.orders_by_id;
      }
]

-- The loop of `applyClear` from an iterator on: the orders that it has not reached yet.
unfoldable pub clear_from : ℕ → Map ℕ HistoricalOrder → HistoricalLob → HistoricalLob
clear_from instrument [] b = b
clear_from instrument ((order_id, order) ∷ rest) b =
    let cleared = clear_from instrument rest (record b {
      levels = remove_volume order.side order.price order.quantity b.levels;
      orders_by_id = erase order_id b.orders_by_id;
    }) in
    let kept = clear_from instrument rest b in
    if order.instrument_id == instrument then cleared else kept

unfoldable pub apply_clear : MarketDataEvent → HistoricalLob → HistoricalLob
unfolding clear_from
apply_clear event b =
    if event.instrument_id == 0
    then record b { levels = no_levels; orders_by_id = [] }
    else clear_from event.instrument_id b.orders_by_id b

-- The `switch` of `apply`.
unfoldable pub dispatch : Action → MarketDataEvent → HistoricalLob → HistoricalLob
dispatch Action.add event b = apply_add event b
dispatch Action.modify event b = apply_modify event b
dispatch Action.cancel event b = apply_cancel event b
dispatch Action.clear event b = apply_clear event b
dispatch _ event b = b

unfoldable pub apply : MarketDataEvent → HistoricalLob → HistoricalLob
unfolding dispatch
apply event b =
    let b' =
      if event.instrument_id == 0 then b else record b { instrument_id = event.instrument_id } in
    dispatch event.action event b'

unfoldable pub best_bid : HistoricalLob → Option (ℤ × ℕ)
best_bid b = first_level b.levels.bids

unfoldable pub best_ask : HistoricalLob → Option (ℤ × ℕ)
best_ask b = first_level b.levels.asks

unfoldable pub bids : ℕ → HistoricalLob → Levels ℤ
bids depth b = copy_levels depth 0 b.levels.bids

unfoldable pub asks : ℕ → HistoricalLob → Levels ℤ
asks depth b = copy_levels depth 0 b.levels.asks

unfoldable pub snapshot : ℕ → HistoricalLob → LobSnapshot
snapshot depth b = record {
  instrument_id = b.instrument_id;
  bids = bids depth b;
  asks = asks depth b;
}

unfoldable pub resting_order_count : HistoricalLob → ℕ
resting_order_count b = length b.orders_by_id
