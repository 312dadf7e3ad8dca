-- ===== src/Book/LimitOrderBook.antt =====
-- src/book/LimitOrderBook.{hpp,cpp}: the book of one instrument, rebuilt from an L3 feed. An
-- operation takes the book and returns the new one. `printSnapshot` is text output and is left out.
pub mod Steps
pub mod Invariant
pub mod Preserve
pub mod Refine
pub mod Best
pub mod Run
pub mod Counters
use Prim.Native.String.{String}
use backtester_lab.Base.{
  ℕ, ◌+◌, ◌-◌, min, Bool, List, [], ◌∷◌, ◌++◌, Option, none, some, if◌then◌else◌, ◌==◌, leb, u64,
  length, nat_eq,
}
use backtester_lab.Base.Int.{ℤ}
use backtester_lab.Domain.{Side, Action, MarketDataEvent, has_valid_resting_state}
use backtester_lab.Levels.{Levels, first_level, copy_levels}
use backtester_lab.Map.{Map, find, insert, erase, contains}
use backtester_lab.Sides.{Sides, no_levels, add_volume, remove_volume, volume_on}

abbrev unknown_order_diagnostic_sample_limit : ℕ
unknown_order_diagnostic_sample_limit = 32

pub record UnknownOrderDiagnostic : Type 0 where
  pub operation : String
  pub decision : String
  pub timestamp : ℕ
  pub instrument_id : ℕ
  pub order_id : ℕ
  pub side : Side
  pub price : ℤ
  pub size : ℕ
  pub source_file_id : ℕ
  pub source_sequence : ℕ
  pub line_number : ℕ

pub record RestingOrder : Type 0 where
  pub side : Side
  pub price : ℤ
  pub size : ℕ

-- `levels` holds `bids_` and `asks_`.
pub record LimitOrderBook : Type 0 where
  pub instrument_id : ℕ
  pub levels : Sides
  pub orders : Map ℕ RestingOrder
  pub unknown_modify_recovered_as_add_count : ℕ
  pub unknown_modify_skipped_count : ℕ
  pub unknown_cancel_skipped_count : ℕ
  pub trade_count : ℕ
  pub fill_count : ℕ
  pub unknown_order_diagnostics : List UnknownOrderDiagnostic

unfoldable pub new_book : ℕ → LimitOrderBook
new_book instrument_id = record {
  instrument_id = instrument_id;
  levels = no_levels;
  orders = [];
  unknown_modify_recovered_as_add_count = 0;
  unknown_modify_skipped_count = 0;
  unknown_cancel_skipped_count = 0;
  trade_count = 0;
  fill_count = 0;
  unknown_order_diagnostics = [];
}

unfoldable pub add_level_volume : Side → ℤ → ℕ → LimitOrderBook → LimitOrderBook
add_level_volume side price size b = record b { levels = add_volume side price size b.levels }

unfoldable pub remove_level_volume : Side → ℤ → ℕ → LimitOrderBook → LimitOrderBook
remove_level_volume side price size b = record b { levels = remove_volume side price size b.levels }

abbrev pub diagnostic_of : MarketDataEvent → String → String → UnknownOrderDiagnostic
diagnostic_of event operation decision = record {
  operation = operation;
  decision = decision;
  timestamp = event.timestamp;
  instrument_id = event.instrument_id;
  order_id = event.order_id;
  side = event.side;
  price = event.price;
  size = event.size;
  source_file_id = event.source_file_id;
  source_sequence = event.source_sequence;
  line_number = event.line_number;
}

unfoldable pub record_unknown_order_diagnostic :
    MarketDataEvent → String → String → LimitOrderBook → LimitOrderBook
record_unknown_order_diagnostic event operation decision b =
    if leb unknown_order_diagnostic_sample_limit (length b.unknown_order_diagnostics)
    then b
    else record b {
      unknown_order_diagnostics =
          b.unknown_order_diagnostics ++ (diagnostic_of event operation decision ∷ []);
    }

-- The order that an event states.
abbrev pub order_of : MarketDataEvent → RestingOrder
order_of event = record { side = event.side; price = event.price; size = event.size }

unfoldable pub remove_order : ℕ → LimitOrderBook → LimitOrderBook
unfolding remove_level_volume
remove_order order_id b = elim (find order_id b.orders) [
  | none ↦ b
  | some order ↦
      let b' = remove_level_volume order.side order.price order.size b in
      record b' { orders = erase order_id b'.orders }
]

-- The end of `applyAdd`, behind its guard: the order, and then its volume.
unfoldable pub place_order : MarketDataEvent → LimitOrderBook → LimitOrderBook
unfolding add_level_volume
place_order event b =
    let b' = record b { orders = insert event.order_id (order_of event) b.orders } in
    add_level_volume event.side event.price event.size b'

unfoldable pub apply_add : MarketDataEvent → LimitOrderBook → LimitOrderBook
unfolding has_valid_resting_state
apply_add event b =
    if has_valid_resting_state event then place_order event (remove_order event.order_id b) else b

unfoldable pub apply_cancel : MarketDataEvent → LimitOrderBook → LimitOrderBook
unfolding remove_level_volume record_unknown_order_diagnostic
apply_cancel event b = elim (find event.order_id b.orders) [
  | none ↦
      record_unknown_order_diagnostic event "cancel" "skipped"
        (record b { unknown_cancel_skipped_count = u64 (b.unknown_cancel_skipped_count + 1) })
  | some order ↦
      let cancel_size = if event.size == 0 then order.size else min event.size order.size in
      let b' = remove_level_volume order.side order.price cancel_size b in
      let left = order.size - cancel_size in
      if left == 0
      then record b' { orders = erase event.order_id b'.orders }
      else record b' { orders = insert event.order_id (record order { size = left }) b'.orders }
]

unfoldable pub apply_modify : MarketDataEvent → LimitOrderBook → LimitOrderBook
unfolding remove_level_volume add_level_volume record_unknown_order_diagnostic
apply_modify event b = elim (find event.order_id b.orders) [
  | none ↦
      if has_valid_resting_state event
      then apply_add event (
          record_unknown_order_diagnostic event "modify" "recovered_as_add" (record b {
            unknown_modify_recovered_as_add_count =
                u64 (b.unknown_modify_recovered_as_add_count + 1);
          }))
      else record_unknown_order_diagnostic event "modify" "skipped"
          (record b { unknown_modify_skipped_count = u64 (b.unknown_modify_skipped_count + 1) })
  | some order ↦
      if has_valid_resting_state event
      then place_order event (remove_level_volume order.side order.price order.size b)
      else b
]

unfoldable pub apply_clear : MarketDataEvent → LimitOrderBook → LimitOrderBook
apply_clear event b = record b { levels = no_levels; orders = [] }

unfoldable pub apply_trade : MarketDataEvent → LimitOrderBook → LimitOrderBook
apply_trade event b = record b { trade_count = u64 (b.trade_count + 1) }

unfoldable pub apply_fill : MarketDataEvent → LimitOrderBook → LimitOrderBook
apply_fill event b = record b { fill_count = u64 (b.fill_count + 1) }

-- The `switch` of `apply`.
unfoldable pub dispatch : Action → MarketDataEvent → LimitOrderBook → LimitOrderBook
dispatch Action.add event b = apply_add event b
dispatch Action.modify event b = apply_modify event b
dispatch Action.cancel event b = apply_cancel event b
dispatch Action.clear event b = apply_clear event b
dispatch Action.trade event b = apply_trade event b
dispatch Action.fill event b = apply_fill event b
dispatch Action.none event b = b

unfoldable pub apply : MarketDataEvent → LimitOrderBook → LimitOrderBook
unfolding dispatch
apply event b = dispatch event.action event b

unfoldable pub best_bid : LimitOrderBook → Option ℤ
best_bid b = elim (first_level b.levels.bids) [ none ↦ none | some level ↦ some level.0 ]

unfoldable pub best_ask : LimitOrderBook → Option ℤ
best_ask b = elim (first_level b.levels.asks) [ none ↦ none | some level ↦ some level.0 ]

unfoldable pub volume_at : Side → ℤ → LimitOrderBook → ℕ
volume_at side price b = volume_on side price b.levels

unfoldable pub resting_order_count : LimitOrderBook → ℕ
resting_order_count b = length b.orders

unfoldable pub skipped_unknown_order_count : LimitOrderBook → ℕ
skipped_unknown_order_count b =
    u64 (b.unknown_modify_skipped_count + b.unknown_cancel_skipped_count)

unfoldable pub contains_order : ℕ → LimitOrderBook → Bool
contains_order order_id b = contains order_id b.orders

unfoldable pub bid_levels : ℕ → LimitOrderBook → Levels ℤ
bid_levels depth b = copy_levels depth 0 b.levels.bids

unfoldable pub ask_levels : ℕ → LimitOrderBook → Levels ℤ
ask_levels depth b = copy_levels depth 0 b.levels.asks
