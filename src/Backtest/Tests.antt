-- ===== src/Backtest/Tests.antt =====
-- The theorems about src/backtest at inputs that meet their hypotheses.
use backtester_lab.Base.{
  ℕ, ◌+◌, ◌≡◌, refl, true, [], ◌∷◌, none, some, if◌then◌else◌, ◌==◌, arith, nat_eq,
}
use backtester_lab.Base.Int.{pos}
use backtester_lab.Domain.{Side, Action, MarketDataEvent}
use backtester_lab.Map.{find}
use backtester_lab.Queue.{NonBlockingQueue, new_queue}
use backtester_lab.Messaging.Publisher
use backtester_lab.Gateway.Channel.{OrderChannel}
use backtester_lab.Gateway.Messages.{OrderStatus, OrderMessageType, OrderRejectReason, OrderFields}
use backtester_lab.Gateway.Types.{
  OrderKey, key_eq, key_beq, OrderGatewayTransition, OrderGatewayTransitionType, no_snapshot,
}
use backtester_lab.Lob.EngineView.{EngineView, new_view}
use backtester_lab.Lob.HistoricalLobStore
use backtester_lab.Lob.HistoricalLobStore.{HistoricalLobStore}
use backtester_lab.Backtest.MarketDataEventAdapter
use backtester_lab.Backtest.MarketDataEventAdapter.{
  MarketDataEventAdapter, MarketDataEventAdapterConfig, new_adapter,
}
use backtester_lab.Backtest.MarketDataEventAdapter.Publish.{Publishes, process-Publishes}
use backtester_lab.Backtest.IntegratedBacktestEngine.{
  IntegratedBacktestEngine, IntegratedBacktestConfig, IntegratedBacktestRunResult, new_engine,
  subscribe, run, adapter_config,
}
use backtester_lab.Backtest.IntegratedBacktestEngine.Counts.{IsEngine}
use backtester_lab.Backtest.IntegratedBacktestEngine.Runs.{
  run-total, new_engine-IsEngine, subscribe-IsEngine,
}
use backtester_lab.Backtest.OrderExecutionBridge.{
  OrderExecutionBridge, OrderExecutionBridgeResult, ExecutionOrderMapping, process_cancel_accepted,
}
use backtester_lab.Backtest.OrderExecutionBridge.Mappings.{cancel-erased, key_of}

abbrev event : MarketDataEvent
event = record {
  timestamp = 100;
  ts_recv = 100;
  ts_event = 100;
  order_id = 1;
  side = Side.bid;
  price = pos 90;
  size = 5;
  action = Action.add;
  instrument_id = 7;
  source_file_id = 0;
  source_sequence = 1;
  line_number = 1;
}

abbrev config : IntegratedBacktestConfig
config = record {
  instruments = 7 ∷ [];
  publish_book_updates = true;
  publish_trades = true;
  snapshot_depth = 5;
  snapshot_interval_events = 1;
  max_events = 1;
  subscriber_queue_batch_size = 256;
}

process-Publishes_example :
    Publishes event
      (new_adapter (adapter_config config))
      (MarketDataEventAdapter.process event (new_adapter (adapter_config config))).0
      (MarketDataEventAdapter.process event (new_adapter (adapter_config config))).1
process-Publishes_example = process-Publishes event (new_adapter (adapter_config config))

-- An engine with one subscriber of instrument 7.
abbrev engine : IntegratedBacktestEngine
engine = (subscribe 7 (new_engine config)).1

engine-IsEngine : IsEngine 0 0 engine
engine-IsEngine =
    subscribe-IsEngine 7 0 (new_engine config) (new_engine-IsEngine config)
      (unfold new_engine in omega arith)

engine-inputs : engine.stats.input_event_count ≡ 0
unfolding subscribe new_engine Publisher.subscribe new_queue
engine-inputs = refl

run-total_example :
    (stats : IntegratedBacktestRunResult) × (after : IntegratedBacktestEngine) × (m : ℕ) × (run 5
        (event ∷ event ∷ [])
        engine
      ≡ some (stats, after))
    × (stats ≡ after.stats)
    × IsEngine 0 m after
    × (stats.input_event_count ≡ engine.stats.input_event_count + 2)
run-total_example =
    run-total 5 0 (event ∷ event ∷ []) engine engine-IsEngine (omega (arith, engine-inputs))
      (omega arith)

-- A sale of 8 at 85 or better that the gateway has accepted, and a store with 5 bid at 90.
abbrev fields : OrderFields
fields = record {
  trading_engine_id = 3;
  order_id = 21;
  instrument_id = 7;
  side = Side.ask;
  price = pos 85;
  size = 8;
  timestamp_ns = pos 100;
  status = OrderStatus.accepted;
}

abbrev accepted : OrderGatewayTransition
accepted = record {
  type = OrderGatewayTransitionType.new_accepted;
  request_type = OrderMessageType.new_order;
  fields = fields;
  snapshot = no_snapshot;
  reject_reason = OrderRejectReason.internal_error;
  reject_text = "";
}

abbrev queue_of : {A : Type 0} → NonBlockingQueue A
queue_of = record {
  batch_size = 2;
  nodes = [];
  producer_batch = [];
  consumer_batch = [];
  consumer_index = 0;
  enqueued_count = 0;
  dequeued_count = 0;
}

abbrev channel : OrderChannel
channel = record { requests = queue_of; events = queue_of }

abbrev bridge : OrderExecutionBridge
bridge = record {
  server = record {
    engine_order = [];
    sessions_by_engine = [];
    orders_by_key = [];
    channels = λ a. channel;
  };
  historical_lobs = HistoricalLobStore.apply event [];
  engine_views = (3, new_view 3) ∷ [];
  mappings = [];
}

abbrev no_counts : OrderExecutionBridgeResult
no_counts = record {
  transitions = [];
  new_accepted_count = 0;
  cancel_accepted_count = 0;
  modify_accepted_count = 0;
  rejected_count = 0;
  fills_emitted = 0;
  mappings_added = 0;
  mappings_erased = 0;
}

-- A bridge in which the order rests with 3 under the id 1.
abbrev mapping : ExecutionOrderMapping
mapping = record {
  trading_engine_id = 3;
  gateway_order_id = 21;
  synthetic_order_id = 1;
  instrument_id = 7;
  side = Side.ask;
  price = pos 85;
  remaining_size = 3;
  last_timestamp_ns = pos 100;
}

abbrev resting_view : EngineView
resting_view = record (new_view 3) {
  own_orders =
      (
        1,
        record {
          instrument_id = 7;
          side = Side.ask;
          price = pos 85;
          size = 3;
          timestamp_ns = pos 100;
        },
      )
      ∷ [];
}

abbrev mapped_bridge : OrderExecutionBridge
mapped_bridge = record bridge {
  engine_views = (3, resting_view) ∷ [];
  mappings = (key_of accepted, mapping) ∷ [];
}

cancel-erased_example :
    (let b' = (process_cancel_accepted accepted (no_counts, mapped_bridge)).1 in
      ((j : OrderKey)
        → find j b'.mappings
          ≡ (if key_of accepted == j then none else find j mapped_bridge.mappings))
      × (after : EngineView) × (find 3 b'.engine_views ≡ some after)
      × ((k : ℕ)
          → find k after.own_orders ≡ (if 1 == k then none else find k resting_view.own_orders)))
cancel-erased_example =
    cancel-erased accepted no_counts mapped_bridge mapping resting_view (unfold find in (refl, tt))
      (unfold find in (refl, tt)) (unfold find key_beq in refl) (unfold find in refl)
