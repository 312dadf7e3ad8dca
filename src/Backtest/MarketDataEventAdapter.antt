-- ===== src/Backtest/MarketDataEventAdapter.antt =====
-- src/backtest/MarketDataEventAdapter.{hpp,cpp}: an event goes to the historical store, and makes the
-- messages that subscribers get. The accessors of the members are the record's fields.
pub mod Process
pub mod Conditions
pub mod Publish
use backtester_lab.Base.{
  ℕ, ◌+◌, ◌-◌, ◌%◌, ◌^◌, Bool, true, false, not, ◌&&◌, ◌||◌, List, [], ◌∷◌, ◌++◌, if◌then◌else◌,
  ◌==◌, ltb, nat_eq, u64,
}
use backtester_lab.Base.Int.{ℤ, pos}
use backtester_lab.Domain.{
  Action, MarketDataEvent, action_beq, raw_undefined_timestamp, undefined_timestamp,
}
use backtester_lab.Levels.{Levels}
use backtester_lab.Lob.HistoricalLob.{LobSnapshot}
use backtester_lab.Lob.HistoricalLobStore
use backtester_lab.Lob.HistoricalLobStore.{HistoricalLobStore}
use backtester_lab.Messaging.Message.{
  PriceLevel, BookUpdate, BookSnapshot, Trade, MarketDataMessage,
}

pub record MarketDataEventAdapterConfig : Type 0 where
  pub instruments : List ℕ
  pub publish_book_updates : Bool
  pub publish_trades : Bool
  pub snapshot_depth : ℕ
  pub snapshot_interval_events : ℕ

pub record MarketDataEventAdapterResult : Type 0 where
  pub accepted : Bool
  pub applied_to_lob : Bool
  pub published_book_update : Bool
  pub published_trade : Bool
  pub published_snapshot : Bool
  pub instrument_id : ℕ
  pub accepted_event_count : ℕ
  pub messages : List MarketDataMessage

-- `instrument_filter` is a set, as a list in which no id stands twice.
pub record MarketDataEventAdapter : Type 0 where
  pub config : MarketDataEventAdapterConfig
  pub instrument_filter : List ℕ
  pub store : HistoricalLobStore
  pub accepted_event_count : ℕ

unfoldable pub is_lob_mutating_action : Action → Bool
is_lob_mutating_action action =
    action_beq action Action.add
    || (action_beq action Action.modify
        || (action_beq action Action.cancel || action_beq action Action.clear))

unfoldable pub is_trade_like_action : Action → Bool
is_trade_like_action action = action_beq action Action.trade || action_beq action Action.fill

unfoldable pub to_timestamp_ns : ℕ → ℤ
to_timestamp_ns timestamp =
    if timestamp == raw_undefined_timestamp
    then undefined_timestamp
    else if ltb (2 ^ 63 - 1) timestamp
    then undefined_timestamp
    else pos timestamp

-- The loop of `toPriceLevels` from `index` on. An index is 32 bits wide.
unfoldable pub price_levels_from : ℕ → Levels ℤ → List PriceLevel
price_levels_from index [] = []
price_levels_from index ((price, size) ∷ levels) =
    record { level_index = index % 2 ^ 32; price = price; size = size }
    ∷ price_levels_from (index + 1) levels

unfoldable pub to_price_levels : Levels ℤ → List PriceLevel
unfolding price_levels_from
to_price_levels levels = price_levels_from 0 levels

-- `instrument_filter_.find(id) != instrument_filter_.end()`
unfoldable pub in_filter : ℕ → List ℕ → Bool
in_filter id [] = false
in_filter id (x ∷ xs) = (x == id) || in_filter id xs

-- The loop of the constructor.
unfoldable pub filter_of : List ℕ → List ℕ → List ℕ
unfolding in_filter
filter_of [] filter = filter
filter_of (id ∷ ids) filter =
    filter_of ids (if (id == 0) || in_filter id filter then filter else id ∷ filter)

unfoldable pub new_adapter : MarketDataEventAdapterConfig → MarketDataEventAdapter
unfolding filter_of
new_adapter config = record {
  config = config;
  instrument_filter = filter_of config.instruments [];
  store = [];
  accepted_event_count = 0;
}

unfoldable pub accepts : MarketDataEvent → MarketDataEventAdapter → Bool
unfolding in_filter
accepts event a = elim a.instrument_filter [
  | [] ↦ true
  | id ∷ ids ↦
      (action_beq event.action Action.clear && (event.instrument_id == 0))
      || in_filter event.instrument_id (id ∷ ids)
]

unfoldable pub should_publish_snapshot : MarketDataEvent → MarketDataEventAdapter → Bool
should_publish_snapshot event a =
    ltb 0 a.config.snapshot_interval_events
    && (not (event.instrument_id == 0)
        && (not (action_beq event.action Action.none)
            && (a.accepted_event_count % a.config.snapshot_interval_events == 0)))

unfoldable pub make_snapshot : MarketDataEvent → MarketDataEventAdapter → BookSnapshot
unfolding to_timestamp_ns to_price_levels
make_snapshot event a =
    let snapshot =
      HistoricalLobStore.snapshot event.instrument_id a.config.snapshot_depth a.store in
    record {
      instrument_id = event.instrument_id;
      timestamp_ns = to_timestamp_ns event.timestamp;
      seq_no = 0;
      bids = to_price_levels snapshot.bids;
      asks = to_price_levels snapshot.asks;
    }

unfoldable pub make_book_update : MarketDataEvent → BookUpdate
unfolding to_timestamp_ns
make_book_update event = record {
  instrument_id = event.instrument_id;
  timestamp_ns = to_timestamp_ns event.timestamp;
  seq_no = 0;
  side = event.side;
  price = event.price;
  size = event.size;
}

unfoldable pub make_trade : MarketDataEvent → Trade
unfolding to_timestamp_ns
make_trade event = record {
  instrument_id = event.instrument_id;
  timestamp_ns = to_timestamp_ns event.timestamp;
  seq_no = 0;
  price = event.price;
  size = event.size;
  aggressor_side = event.side;
}

-- The result before the tests of `process`.
abbrev pub not_accepted : MarketDataEvent → MarketDataEventAdapter → MarketDataEventAdapterResult
not_accepted event a = record {
  accepted = false;
  applied_to_lob = false;
  published_book_update = false;
  published_trade = false;
  published_snapshot = false;
  instrument_id = event.instrument_id;
  accepted_event_count = a.accepted_event_count;
  messages = [];
}

-- The `if` and `else if` on the action, after the count: the book, and the message on the event.
unfoldable pub process_action :
    MarketDataEvent
    → MarketDataEventAdapter
    → MarketDataEventAdapterResult
    → MarketDataEventAdapterResult × MarketDataEventAdapter
process_action event a result =
    if is_lob_mutating_action event.action
    then (
      (if a.config.publish_book_updates && not (event.instrument_id == 0)
          then record result {
            applied_to_lob = true;
            messages =
                result.messages ++ (MarketDataMessage.book_update (make_book_update event) ∷ []);
            published_book_update = true;
          }
          else record result { applied_to_lob = true }),
      record a { store = HistoricalLobStore.apply event a.store },
    )
    else if is_trade_like_action event.action
        && (a.config.publish_trades && not (event.instrument_id == 0))
    then (
      record result {
        messages = result.messages ++ (MarketDataMessage.trade (make_trade event) ∷ []);
        published_trade = true;
      },
      a,
    )
    else (result, a)

-- The end of `process`.
unfoldable pub process_snapshot :
    MarketDataEvent
    → MarketDataEventAdapterResult × MarketDataEventAdapter
    → MarketDataEventAdapterResult × MarketDataEventAdapter
unfolding should_publish_snapshot make_snapshot
process_snapshot event (result, a) =
    if should_publish_snapshot event a
    then (
      record result {
        messages =
            result.messages ++ (MarketDataMessage.book_snapshot (make_snapshot event a) ∷ []);
        published_snapshot = true;
      },
      a,
    )
    else (result, a)

unfoldable pub process :
    MarketDataEvent → MarketDataEventAdapter → MarketDataEventAdapterResult × MarketDataEventAdapter
unfolding accepts process_action process_snapshot
process event a =
    if not (accepts event a)
    then (not_accepted event a, a)
    else (let a' = record a { accepted_event_count = u64 (a.accepted_event_count + 1) } in
        let result = record (not_accepted event a) {
          accepted = true;
          accepted_event_count = a'.accepted_event_count;
        } in
        process_snapshot event (process_action event a' result))
