-- ===== src/Backtest/MarketDataEventAdapter/Publish.antt =====
-- src/backtest/MarketDataEventAdapter.cpp: which messages one event makes, and what they say.
use backtester_lab.Base.{
  ◌+◌, ◌%◌, ◌≡◌, ◌≢◌, ◌↔◌, ◌∙◌, Bool, true, false, not, ◌&&◌, List, [], ◌∷◌, ◌++◌, if◌then◌else◌,
  ◌==◌, ltb, arith, nat_eq, nat_beq_iff, u64,
}
use backtester_lab.Domain.{Action, MarketDataEvent, action_beq}
use backtester_lab.Lob.HistoricalLobStore
use backtester_lab.Messaging.Message.{MarketDataMessage}
use backtester_lab.Backtest.MarketDataEventAdapter.{
  MarketDataEventAdapter, MarketDataEventAdapterResult, process, process_action, process_snapshot,
  is_lob_mutating_action, is_trade_like_action, should_publish_snapshot, make_snapshot,
  make_book_update, make_trade, to_timestamp_ns, to_price_levels,
}
use backtester_lab.Backtest.MarketDataEventAdapter.Conditions.{
  ChangesBooks, IsTrade, GetsThrough, changes_lem, trade_lem, none_lem, accepts_lem,
}
use backtester_lab.Backtest.MarketDataEventAdapter.Process.{process-IsProcessed}

-- No trade changes books.
disjoint : (x : Action) → is_lob_mutating_action x ≡ true → is_trade_like_action x ≡ false
unfolding is_lob_mutating_action is_trade_like_action action_beq
disjoint x h = ground arith

-- The message behind a flag.
abbrev pub message_if : Bool → MarketDataMessage → List MarketDataMessage
message_if flag m = if flag then m ∷ [] else []

-- What one event does, as its caller sees it: who gets through, which messages are made, and what
-- they say. A snapshot shows the books after the event.
pub record Publishes (e : MarketDataEvent) (a : MarketDataEventAdapter)
    (r : MarketDataEventAdapterResult) (after : MarketDataEventAdapter) : Type 0 where
  pub accepted : (r.accepted ≡ true) ↔ GetsThrough e a.instrument_filter
  pub applied : (r.applied_to_lob ≡ true) ↔ ((r.accepted ≡ true) × ChangesBooks e.action)
  pub update :
      (r.published_book_update ≡ true)
      ↔ ((r.applied_to_lob ≡ true) × (a.config.publish_book_updates ≡ true) × (e.instrument_id ≢ 0))
  pub trade : (r.published_trade ≡ true) ↔ (
      (r.accepted ≡ true)
      × IsTrade e.action
      × (a.config.publish_trades ≡ true)
      × (e.instrument_id ≢ 0))
  pub snapshot : (r.published_snapshot ≡ true) ↔ (
      (r.accepted ≡ true)
      × (e.action ≢ Action.none)
      × (e.instrument_id ≢ 0)
      × (a.config.snapshot_interval_events ≢ 0)
      × (after.accepted_event_count % a.config.snapshot_interval_events ≡ 0))
  pub messages :
      r.messages
      ≡ message_if r.published_book_update (
          MarketDataMessage.book_update (record {
            instrument_id = e.instrument_id;
            timestamp_ns = to_timestamp_ns e.timestamp;
            seq_no = 0;
            side = e.side;
            price = e.price;
            size = e.size;
          }))
        ++ (message_if r.published_trade (
              MarketDataMessage.trade (record {
                instrument_id = e.instrument_id;
                timestamp_ns = to_timestamp_ns e.timestamp;
                seq_no = 0;
                price = e.price;
                size = e.size;
                aggressor_side = e.side;
              }))
            ++ message_if r.published_snapshot (
                MarketDataMessage.book_snapshot (
                  let levels =
                    HistoricalLobStore.snapshot e.instrument_id a.config.snapshot_depth
                      after.store in
                  record {
                    instrument_id = e.instrument_id;
                    timestamp_ns = to_timestamp_ns e.timestamp;
                    seq_no = 0;
                    bids = to_price_levels levels.bids;
                    asks = to_price_levels levels.asks;
                  })))
  pub refused : r.accepted ≡ false → after ≡ a
  pub store :
      after.store ≡ (if r.applied_to_lob then HistoricalLobStore.apply e a.store else a.store)
  pub count : r.accepted ≡ true → after.accepted_event_count ≡ u64 (a.accepted_event_count + 1)

flag-update :
    (e : MarketDataEvent) (a : MarketDataEventAdapter)
    → let r = process e a in
      r.0.published_book_update
      ≡ (r.0.applied_to_lob && (a.config.publish_book_updates && not (e.instrument_id == 0)))
unfolding process process_action process_snapshot
flag-update e a = ground arith

flag-trade :
    (e : MarketDataEvent) (a : MarketDataEventAdapter)
    → let r = process e a in
      r.0.published_trade ≡ (
        r.0.accepted
        && (is_trade_like_action e.action
            && (a.config.publish_trades && not (e.instrument_id == 0))))
unfolding process process_action process_snapshot
flag-trade e a = ground (arith, disjoint e.action)

flag-snapshot :
    (e : MarketDataEvent) (a : MarketDataEventAdapter)
    → let r = process e a in
      r.0.published_snapshot ≡ (
        r.0.accepted
        && (ltb 0 a.config.snapshot_interval_events
            && (not (e.instrument_id == 0)
                && (not (action_beq e.action Action.none)
                    && (r.1.accepted_event_count % a.config.snapshot_interval_events == 0)))))
unfolding process process_action process_snapshot should_publish_snapshot
flag-snapshot e a = ground arith

-- An event makes the messages of its flags, in this order, and says in them what it states; a snapshot
-- shows the books after the event. The flags are set exactly if the event gets through, its action,
-- its instrument and the configuration ask for the message, and, for a snapshot, the count of events
-- is due. The books change exactly if the action changes books, and a refused event has no effect.
pub process-Publishes :
    (e : MarketDataEvent) (a : MarketDataEventAdapter)
    → Publishes e a (process e a).0 (process e a).1
unfolding process process_action process_snapshot make_snapshot make_book_update make_trade
process-Publishes e a =
    let p = process-IsProcessed e a in
    let named = nat_beq_iff e.instrument_id 0 in
    record {
      accepted = (
        λ h. (accepts_lem e a).0 (ground (arith, h, p.accepted)),
        λ h. p.accepted ∙ (accepts_lem e a).1 h,
      );
      applied = (
        λ h. (
          ground (arith, h, p.applied, p.accepted),
          (changes_lem e.action).0 (ground (arith, h, p.applied)),
        ),
        λ h. ground (arith, h.0, p.accepted, p.applied, (changes_lem e.action).1 h.1),
      );
      update = (
        λ h. (
          ground (arith, h, flag-update e a),
          ground (arith, h, flag-update e a),
          λ zero_id. ground (arith, h, flag-update e a, named),
        ),
        λ h. ground (arith, h.0, h.1, h.2, flag-update e a, named),
      );
      trade = (
        λ h. (
          ground (arith, h, flag-trade e a),
          (trade_lem e.action).0 (ground (arith, h, flag-trade e a)),
          ground (arith, h, flag-trade e a),
          λ zero_id. ground (arith, h, flag-trade e a, named),
        ),
        λ (through, trades, on, some_id).
            ground
              (arith, through, (trade_lem e.action).1 trades, on, some_id, flag-trade e a, named),
      );
      snapshot = (
        λ h. (
          ground (arith, h, flag-snapshot e a),
          λ no_action. ground (arith, h, flag-snapshot e a, (none_lem e.action).1 no_action),
          λ zero_id. ground (arith, h, flag-snapshot e a, named),
          λ never. ground (arith, h, flag-snapshot e a),
          ground (
            arith,
            h,
            flag-snapshot e a,
            nat_beq_iff ((process e a).1.accepted_event_count % a.config.snapshot_interval_events)
                0,
          ),
        ),
        λ (through, acts, some_id, interval, due). ground (
          arith,
          through,
          (none_lem e.action).0,
          acts,
          some_id,
          interval,
          due,
          flag-snapshot e a,
          named,
          nat_beq_iff ((process e a).1.accepted_event_count % a.config.snapshot_interval_events) 0,
        ),
      );
      messages = ground (arith, disjoint e.action);
      refused = λ h. ground (arith, h);
      store = ground (arith, p.store, p.applied);
      count = λ h. ground (arith, h, p.count, p.accepted);
    }
