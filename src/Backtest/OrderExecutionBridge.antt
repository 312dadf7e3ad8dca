-- ===== src/Backtest/OrderExecutionBridge.antt =====
-- src/backtest/OrderExecutionBridge.{hpp,cpp}: the accepted requests of the gateway become simulated
-- orders, and their fills go back to the gateway. The references to the server, the store of
-- historical books and the views are the state's members; the store is only read.
pub mod Mappings
use backtester_lab.Base.{
  ℕ, ◌+◌, Bool, true, false, ◌||◌, List, [], ◌∷◌, Option, none, some, if◌then◌else◌, ◌==◌, nat_eq,
  u64, length,
}
use backtester_lab.Base.Int.{ℤ}
use backtester_lab.Domain.{Side}
use backtester_lab.Map.{Map, find, insert, erase, contains}
use backtester_lab.Gateway.Types.{
  OrderKey, key_eq, OrderGatewayTransition, OrderGatewayTransitionType, Gateway,
}
use backtester_lab.Gateway.Server.Fills.{emit_fill}
use backtester_lab.Gateway.Server.Drain.{drain_requests}
use backtester_lab.Lob.EngineView.{cancel_synthetic_order}
use backtester_lab.Lob.FillSimulator.{
  EngineViews, SimulatedFill, SimulatedOrderRequest, SimulatedOrderResult,
  submit_limit_order_result,
}
use backtester_lab.Lob.Historical.{books}
use backtester_lab.Lob.HistoricalLobStore.{HistoricalLobStore}

pub record ExecutionOrderMapping : Type 0 where
  pub trading_engine_id : ℕ
  pub gateway_order_id : ℕ
  pub synthetic_order_id : ℕ
  pub instrument_id : ℕ
  pub side : Side
  pub price : ℤ
  pub remaining_size : ℕ
  pub last_timestamp_ns : ℤ

pub record OrderExecutionBridgeResult : Type 0 where
  pub transitions : List OrderGatewayTransition
  pub new_accepted_count : ℕ
  pub cancel_accepted_count : ℕ
  pub modify_accepted_count : ℕ
  pub rejected_count : ℕ
  pub fills_emitted : ℕ
  pub mappings_added : ℕ
  pub mappings_erased : ℕ

-- A mapping's key has the fields of a gateway order's key.
abbrev pub MappingKey : Type 0
MappingKey = OrderKey

abbrev pub Mappings : Type 0
Mappings = Map MappingKey ExecutionOrderMapping

pub record OrderExecutionBridge : Type 0 where
  pub server : Gateway
  pub historical_lobs : HistoricalLobStore
  pub engine_views : EngineViews
  pub mappings : Mappings

-- A step's changes of the state and of the result that it is given.
abbrev pub Bridged : Type 0
Bridged = OrderExecutionBridgeResult × OrderExecutionBridge

unfoldable pub mapping_key : ℕ → ℕ → MappingKey
mapping_key engine order_id = record { trading_engine_id = engine; order_id = order_id }

unfoldable pub mapping_count : OrderExecutionBridge → ℕ
mapping_count b = length b.mappings

unfoldable pub find_mapping : ℕ → ℕ → OrderExecutionBridge → Option ExecutionOrderMapping
unfolding mapping_key
find_mapping engine gateway_order_id b = find (mapping_key engine gateway_order_id) b.mappings

unfoldable pub erase_mapping : MappingKey → Bridged → Bridged
erase_mapping key (result, b) = elim (find key b.mappings) [
  | none ↦ (result, b)
  | some mapping ↦ (
    record result { mappings_erased = u64 (result.mappings_erased + 1) },
    record b {
      engine_views = elim (find key.trading_engine_id b.engine_views) [
        | none ↦ b.engine_views
        | some view ↦
            insert key.trading_engine_id (cancel_synthetic_order mapping.synthetic_order_id view)
              b.engine_views
      ];
      mappings = erase key b.mappings;
    },
  )
]

-- The mapping of an order that rests.
abbrev pub mapping_of : OrderGatewayTransition → SimulatedOrderResult → ExecutionOrderMapping
mapping_of transition simulated = record {
  trading_engine_id = transition.fields.trading_engine_id;
  gateway_order_id = transition.fields.order_id;
  synthetic_order_id = simulated.synthetic_order_id;
  instrument_id = transition.fields.instrument_id;
  side = transition.fields.side;
  price = transition.fields.price;
  remaining_size = simulated.remaining_size;
  last_timestamp_ns = transition.fields.timestamp_ns;
}

unfoldable pub store_or_erase_mapping :
    OrderGatewayTransition → SimulatedOrderResult → Bridged → Bridged
unfolding mapping_key erase_mapping
store_or_erase_mapping transition simulated (result, b) =
    let key = mapping_key transition.fields.trading_engine_id transition.fields.order_id in
    if (simulated.synthetic_order_id == 0) || (simulated.remaining_size == 0)
    then erase_mapping key (result, b)
    else (
      (if contains key b.mappings
          then result
          else record result { mappings_added = u64 (result.mappings_added + 1) }),
      record b { mappings = insert key (mapping_of transition simulated) b.mappings },
    )

-- The loop of `submitAcceptedOrder` over the fills.
unfoldable pub emit_fills : OrderGatewayTransition → List SimulatedFill → Bridged → Bridged
emit_fills transition [] s = s
emit_fills transition (fill ∷ fills) (result, b) =
    let (emitted, server) =
      emit_fill transition.fields.trading_engine_id transition.fields.order_id fill.price fill.size
        fill.timestamp_ns b.server in
    emit_fills transition fills (
      (if emitted
          then record result { fills_emitted = u64 (result.fills_emitted + 1) }
          else result),
      record b { server = server },
    )

-- The simulator's request for an accepted order.
abbrev pub request_of : OrderGatewayTransition → SimulatedOrderRequest
request_of transition = record {
  engine_id = transition.fields.trading_engine_id;
  instrument_id = transition.fields.instrument_id;
  side = transition.fields.side;
  limit_price = transition.fields.price;
  size = transition.fields.size;
  timestamp_ns = transition.fields.timestamp_ns;
}

-- `none` means that the simulator's fuel ran out.
unfoldable pub submit_accepted_order : ℕ → OrderGatewayTransition → Bridged → Option Bridged
unfolding emit_fills store_or_erase_mapping
submit_accepted_order fuel transition (result, b) =
    elim (submit_limit_order_result fuel (books b.historical_lobs) (request_of transition)
      b.engine_views) [
        | none ↦ none
        | some (simulated, views) ↦ some (
            store_or_erase_mapping transition simulated
              (emit_fills transition simulated.fills (result, record b { engine_views = views })))
      ]

unfoldable pub process_new_accepted : ℕ → OrderGatewayTransition → Bridged → Option Bridged
unfolding submit_accepted_order
process_new_accepted fuel transition (result, b) =
    submit_accepted_order fuel transition
      (record result { new_accepted_count = u64 (result.new_accepted_count + 1) }, b)

unfoldable pub process_cancel_accepted : OrderGatewayTransition → Bridged → Bridged
unfolding mapping_key erase_mapping
process_cancel_accepted transition (result, b) =
    erase_mapping (mapping_key transition.fields.trading_engine_id transition.fields.order_id)
      (record result { cancel_accepted_count = u64 (result.cancel_accepted_count + 1) }, b)

unfoldable pub process_modify_accepted : ℕ → OrderGatewayTransition → Bridged → Option Bridged
unfolding mapping_key erase_mapping submit_accepted_order
process_modify_accepted fuel transition (result, b) = submit_accepted_order fuel transition (
    erase_mapping (mapping_key transition.fields.trading_engine_id transition.fields.order_id)
      (record result { modify_accepted_count = u64 (result.modify_accepted_count + 1) }, b))

-- The `switch` of `processTransition`.
unfoldable pub process_typed :
    ℕ → OrderGatewayTransitionType → OrderGatewayTransition → Bridged → Option Bridged
unfolding process_new_accepted process_cancel_accepted process_modify_accepted
process_typed fuel OrderGatewayTransitionType.new_accepted transition s =
    process_new_accepted fuel transition s
process_typed fuel OrderGatewayTransitionType.cancel_accepted transition s =
    some (process_cancel_accepted transition s)
process_typed fuel OrderGatewayTransitionType.modify_accepted transition s =
    process_modify_accepted fuel transition s
process_typed fuel OrderGatewayTransitionType.rejected transition (result, b) =
    some (record result { rejected_count = u64 (result.rejected_count + 1) }, b)

unfoldable pub process_transition : ℕ → OrderGatewayTransition → Bridged → Option Bridged
unfolding process_typed
process_transition fuel transition s = process_typed fuel transition.type transition s

unfoldable pub process_transitions : ℕ → List OrderGatewayTransition → Bridged → Option Bridged
unfolding process_transition
process_transitions fuel [] s = some s
process_transitions fuel (t ∷ ts) s = elim (process_transition fuel t s) [
  | none ↦ none
  | some next ↦ process_transitions fuel ts next
]

-- `drainAndProcessRequests`.
unfoldable pub drain_and_process_requests : ℕ → OrderExecutionBridge → Option Bridged
unfolding process_transitions
drain_and_process_requests fuel b = elim (drain_requests fuel b.server) [
  | none ↦ none
  | some (transitions, server) ↦ process_transitions fuel transitions (
    record {
      transitions = transitions;
      new_accepted_count = 0;
      cancel_accepted_count = 0;
      modify_accepted_count = 0;
      rejected_count = 0;
      fills_emitted = 0;
      mappings_added = 0;
      mappings_erased = 0;
    },
    record b { server = server },
  )
]
