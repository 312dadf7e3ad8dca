-- ===== src/Backtest/IntegratedBacktestEngine.antt =====
-- src/backtest/IntegratedBacktestEngine.{hpp,cpp}: the loop of a backtest. The subscribers stand in
-- the publisher's store; a call of a callback is a subscriber's id with the message.
pub mod Delivery
pub mod Counts
pub mod Runs
use backtester_lab.Base.{
  ℕ, ◌+◌, Bool, true, false, not, ◌&&◌, List, [], ◌∷◌, ◌++◌, map, Option, none, some, if◌then◌else◌,
  leb, ltb, nat_eq, u64, length,
}
use backtester_lab.Domain.{MarketDataEvent, event_comes_before}
use backtester_lab.Map.{find, insert}
use backtester_lab.Queue
use backtester_lab.Messaging.Message.{MarketDataMessage}
use backtester_lab.Messaging.Publisher
use backtester_lab.Messaging.Publisher.{
  MarketDataPublisher, MarketDataSubscription, Subscribers, flush,
}
use backtester_lab.Messaging.Numbers.{publish_message}
use backtester_lab.Backtest.MarketDataEventAdapter
use backtester_lab.Backtest.MarketDataEventAdapter.{
  MarketDataEventAdapter, MarketDataEventAdapterConfig, new_adapter,
}

pub record IntegratedBacktestConfig : Type 0 where
  pub instruments : List ℕ
  pub publish_book_updates : Bool
  pub publish_trades : Bool
  pub snapshot_depth : ℕ
  pub snapshot_interval_events : ℕ
  pub max_events : ℕ
  pub subscriber_queue_batch_size : ℕ

pub record IntegratedBacktestEventResult : Type 0 where
  pub processed : Bool
  pub skipped_by_filter : Bool
  pub skipped_by_max_events : Bool
  pub chronological_violation : Bool
  pub input_event_count : ℕ
  pub accepted_event_count : ℕ
  pub published_message_count : ℕ
  pub delivered_message_count : ℕ
  pub published_messages : List MarketDataMessage

pub record IntegratedBacktestRunResult : Type 0 where
  pub input_event_count : ℕ
  pub accepted_event_count : ℕ
  pub skipped_by_filter_count : ℕ
  pub skipped_by_max_events_count : ℕ
  pub chronological_violations : ℕ
  pub published_message_count : ℕ
  pub delivered_message_count : ℕ

-- `calls` are the calls of the callbacks so far, which the program does not keep.
pub record IntegratedBacktestEngine : Type 0 where
  pub config : IntegratedBacktestConfig
  pub adapter : MarketDataEventAdapter
  pub publisher : MarketDataPublisher
  pub subscriptions : List MarketDataSubscription
  pub stats : IntegratedBacktestRunResult
  pub last_input_event : Option MarketDataEvent
  pub calls : List (ℕ × MarketDataMessage)

unfoldable pub adapter_config : IntegratedBacktestConfig → MarketDataEventAdapterConfig
adapter_config config = record {
  instruments = config.instruments;
  publish_book_updates = config.publish_book_updates;
  publish_trades = config.publish_trades;
  snapshot_depth = config.snapshot_depth;
  snapshot_interval_events = config.snapshot_interval_events;
}

abbrev pub no_stats : IntegratedBacktestRunResult
no_stats = record {
  input_event_count = 0;
  accepted_event_count = 0;
  skipped_by_filter_count = 0;
  skipped_by_max_events_count = 0;
  chronological_violations = 0;
  published_message_count = 0;
  delivered_message_count = 0;
}

-- `MarketDataPublisher{}`; the first id of a subscriber is 1.
abbrev pub new_publisher : MarketDataPublisher
new_publisher = record {
  next_subscriber_id = 1;
  subscriber_count = 0;
  last_seq_no_by_instrument = [];
  subscribers_by_instrument = [];
  subscribers = [];
}

unfoldable pub new_engine : IntegratedBacktestConfig → IntegratedBacktestEngine
unfolding adapter_config
new_engine config = record {
  config = config;
  adapter = new_adapter (adapter_config config);
  publisher = new_publisher;
  subscriptions = [];
  stats = no_stats;
  last_input_event = none;
  calls = [];
}

-- `none` is the exception of a queue for batch size 0.
unfoldable pub subscribe :
    ℕ → IntegratedBacktestEngine → Option MarketDataSubscription × IntegratedBacktestEngine
subscribe instrument_id s =
    let subscribed =
      Publisher.subscribe instrument_id s.config.subscriber_queue_batch_size s.publisher in
    elim subscribed.0 [
      | none ↦ (none, record s { publisher = subscribed.1 })
      | some subscription ↦ (
        some subscription,
        record s {
          publisher = subscribed.1;
          subscriptions = s.subscriptions ++ (subscription ∷ []);
        },
      )
    ]

unfoldable pub max_events_reached : IntegratedBacktestEngine → Bool
max_events_reached s =
    ltb 0 s.config.max_events && leb s.config.max_events s.stats.accepted_event_count

-- The loop of `processEvent` over the messages of the adapter.
unfoldable pub publish_messages :
    List MarketDataMessage → MarketDataPublisher → List MarketDataMessage × MarketDataPublisher
publish_messages [] p = ([], p)
publish_messages (m ∷ ms) p =
    let published = publish_message m p in
    let rest = publish_messages ms published.1 in (published.0 ∷ rest.0, rest.1)

-- The loop of `drainSubscribers`: the calls of the callbacks, whose number the source sums up, and
-- the queues after. `none` means that the fuel for a queue ran out.
unfoldable pub drain_each :
    ℕ
    → List MarketDataSubscription
    → Subscribers
    → Option (List (ℕ × MarketDataMessage) × Subscribers)
drain_each fuel [] s = some ([], s)
drain_each fuel (x ∷ xs) s = elim (find x.subscriber_id s) [
  | none ↦ drain_each fuel xs s
  | some q ↦ elim (Queue.drain fuel q) [
    | none ↦ none
    | some (messages, q') ↦ elim (drain_each fuel xs (insert x.subscriber_id q' s)) [
      | none ↦ none
      | some (calls, s') ↦ some (map (λ m. (x.subscriber_id, m)) messages ++ calls, s')
    ]
  ]
]

-- `publisher_.flush()`, then `drainSubscribers()`, whose number goes to the statistics.
unfoldable pub deliver : ℕ → IntegratedBacktestEngine → Option (ℕ × IntegratedBacktestEngine)
unfolding drain_each
deliver fuel s =
    let flushed = flush s.publisher in
    elim (drain_each fuel s.subscriptions flushed.subscribers) [
      | none ↦ none
      | some (calls, subscribers) ↦
          let delivered = u64 (length calls) in
          some (
            delivered,
            record s {
              publisher = record flushed { subscribers = subscribers };
              stats = record s.stats {
                delivered_message_count = u64 (s.stats.delivered_message_count + delivered);
              };
              calls = s.calls ++ calls;
            },
          )
    ]

-- The count of the input and the check of the order, at the start of `processEvent`.
unfoldable pub count_input :
    MarketDataEvent → IntegratedBacktestEngine → Bool × IntegratedBacktestEngine
count_input event s =
    let violation : Bool = elim s.last_input_event [
      | none ↦ false
      | some last ↦ event_comes_before event last
    ] in
    (
      violation,
      record s {
        stats = record s.stats {
          input_event_count = u64 (s.stats.input_event_count + 1);
          chronological_violations =
              if violation
              then u64 (s.stats.chronological_violations + 1)
              else s.stats.chronological_violations;
        };
        last_input_event = some event;
      },
    )

-- The result before the tests of `processEvent`.
abbrev pub first_result : Bool → IntegratedBacktestEngine → IntegratedBacktestEventResult
first_result violation s = record {
  processed = false;
  skipped_by_filter = false;
  skipped_by_max_events = false;
  chronological_violation = violation;
  input_event_count = s.stats.input_event_count;
  accepted_event_count = s.stats.accepted_event_count;
  published_message_count = 0;
  delivered_message_count = 0;
  published_messages = [];
}

-- The count and the messages of an accepted event, up to the flush.
unfoldable pub publish_accepted :
    List MarketDataMessage
    → IntegratedBacktestEngine
    → List MarketDataMessage × IntegratedBacktestEngine
unfolding publish_messages
publish_accepted messages s =
    let published = publish_messages messages s.publisher in
    (
      published.0,
      record s {
        publisher = published.1;
        stats = record s.stats {
          accepted_event_count = u64 (s.stats.accepted_event_count + 1);
          published_message_count = u64 (s.stats.published_message_count + length published.0);
        };
      },
    )

-- The counts of the two early returns.
abbrev pub skip_by_max_events : IntegratedBacktestEngine → IntegratedBacktestEngine
skip_by_max_events s = record s {
  stats = record s.stats {
    skipped_by_max_events_count = u64 (s.stats.skipped_by_max_events_count + 1);
  };
}

abbrev pub skip_by_filter : IntegratedBacktestEngine → IntegratedBacktestEngine
skip_by_filter s = record s {
  stats = record s.stats { skipped_by_filter_count = u64 (s.stats.skipped_by_filter_count + 1) };
}

unfoldable pub process_event :
    ℕ
    → MarketDataEvent
    → IntegratedBacktestEngine
    → Option (IntegratedBacktestEventResult × IntegratedBacktestEngine)
unfolding count_input max_events_reached publish_accepted deliver
process_event fuel event s =
    let (violation, counted) = count_input event s in
    let result = first_result violation counted in
    if max_events_reached counted
    then some (record result { skipped_by_max_events = true }, skip_by_max_events counted)
    else (let (adapted, adapter) = MarketDataEventAdapter.process event counted.adapter in
        let through = record counted { adapter = adapter } in
        let (published, sent) = publish_accepted adapted.messages through in
        let delivery = deliver fuel sent in
        if not adapted.accepted
        then some (record result { skipped_by_filter = true }, skip_by_filter through)
        else elim delivery [
          | none ↦ none
          | some (delivered, after) ↦ some (
            record result {
              processed = true;
              accepted_event_count = sent.stats.accepted_event_count;
              published_messages = published;
              published_message_count = length published;
              delivered_message_count = delivered;
            },
            after,
          )
        ])

unfoldable pub finish : ℕ → IntegratedBacktestEngine → Option (ℕ × IntegratedBacktestEngine)
unfolding deliver
finish fuel s = deliver fuel s

-- The loop of `run`.
unfoldable pub process_events :
    ℕ → List MarketDataEvent → IntegratedBacktestEngine → Option IntegratedBacktestEngine
unfolding process_event
process_events fuel [] s = some s
process_events fuel (e ∷ es) s = elim (process_event fuel e s) [
  | none ↦ none
  | some (result, after) ↦ process_events fuel es after
]

unfoldable pub run :
    ℕ
    → List MarketDataEvent
    → IntegratedBacktestEngine
    → Option (IntegratedBacktestRunResult × IntegratedBacktestEngine)
unfolding process_events finish
run fuel events s = elim (process_events fuel events s) [
  | none ↦ none
  | some processed ↦ elim (finish fuel processed) [
    | none ↦ none
    | some (delivered, after) ↦ some (after.stats, after)
  ]
]
