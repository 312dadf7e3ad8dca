-- ===== src/Gateway/Tests.antt =====
-- Runs of src/gateway at concrete orders, and the theorems about it at inputs that meet their
-- hypotheses.
use backtester_lab.Base.{
  ℕ, ◌+◌, ◌≡◌, ◌≢◌, ◌⊎◌, ◌++◌, refl, true, false, List, [], ◌∷◌, none, some, arith, length, nat_eq,
}
use backtester_lab.Base.Int.{pos}
use backtester_lab.Domain.{Side}
use backtester_lab.Map.{find}
use backtester_lab.Queue.{NonBlockingQueue}
use backtester_lab.Queue.Fifo.{available}
use backtester_lab.Gateway.Messages.{
  OrderStatus, OrderAckType, OrderFields, OrderRequest, OrderEvent, is_terminal,
}
use backtester_lab.Gateway.Channel.{OrderChannel}
use backtester_lab.Gateway.Types.{
  key_eq, key_beq, OrderGatewaySession, OrderSnapshot, OrderGatewayTransition, Gateway,
}
use backtester_lab.Gateway.Server.{process_request, order_key}
use backtester_lab.Gateway.Server.Fills.{emit_fill}
use backtester_lab.Gateway.Server.Orders.{Answered, process_request-Answered}
use backtester_lab.Gateway.Server.Invariant.{AllOrders}
use backtester_lab.Gateway.Server.Terminal.{
  Call, request, fill, calls, calls-AllOrders, calls-terminal,
}
use backtester_lab.Gateway.Server.Events.{Answers, process_request-Answers}
use backtester_lab.Gateway.Server.Filling.{Fills, CannotFill, emit_fill-Fills}
use backtester_lab.Gateway.Server.Drain.{
  requests_of, drain_session, AnswersAll, drain_session-total,
}
use backtester_lab.Gateway.Client
use backtester_lab.Gateway.Client.{
  OrderGatewayClient, Callbacks, client_fields, drain_events, requests_in, send_order,
  flush-send_order,
}
use backtester_lab.Gateway.Client.Drain.{Received, drain_events-total}

abbrev fields : OrderFields
fields = record {
  trading_engine_id = 5;
  order_id = 1;
  instrument_id = 7;
  side = Side.bid;
  price = pos 90;
  size = 4;
  timestamp_ns = pos 100;
  status = OrderStatus.new;
}

abbrev session : OrderGatewaySession
session = record { trading_engine_id = 5; channel = 2 }

abbrev queue_of : {A : Type 0} → List (List A) → NonBlockingQueue A
queue_of nodes = record {
  batch_size = 2;
  nodes = nodes;
  producer_batch = [];
  consumer_batch = [];
  consumer_index = 0;
  enqueued_count = 0;
  dequeued_count = 0;
}

-- One request and one event wait in every channel.
abbrev channel : OrderChannel
channel = record {
  requests = queue_of ((OrderRequest.new_order fields ∷ []) ∷ []);
  events = queue_of ((OrderEvent.order_ack fields OrderAckType.new_accepted ∷ []) ∷ []);
}

abbrev empty_gateway : Gateway
empty_gateway = record {
  engine_order = 5 ∷ [];
  sessions_by_engine = (5, session) ∷ [];
  orders_by_key = [];
  channels = λ a. channel;
}

empty-AllOrders : AllOrders empty_gateway.orders_by_key
unfolding find
empty-AllOrders k o h = ground arith

abbrev cancelled : OrderSnapshot
cancelled = record {
  trading_engine_id = 5;
  order_id = 1;
  instrument_id = 7;
  side = Side.bid;
  price = pos 90;
  original_size = 4;
  remaining_size = 3;
  status = OrderStatus.cancelled;
  last_timestamp_ns = pos 100;
}

-- The order of key (5, 1) is over.
abbrev over_gateway : Gateway
over_gateway = record empty_gateway { orders_by_key = (order_key 5 1, cancelled) ∷ [] }

-- The order of key (5, 1) has 3 of 4 left.
abbrev open_gateway : Gateway
open_gateway = record empty_gateway {
  orders_by_key = (order_key 5 1, record cancelled { status = OrderStatus.partially_filled }) ∷ [];
}

abbrev history : List Call
history =
    request session (OrderRequest.new_order fields)
    ∷ fill 5 1 (pos 90) 3 (pos 101)
    ∷ request session (OrderRequest.cancel_order fields)
    ∷ []

process_request-Answered_example :
    Answered session
      (OrderRequest.new_order fields)
      empty_gateway
      (process_request session (OrderRequest.new_order fields) empty_gateway)
process_request-Answered_example =
    process_request-Answered session (OrderRequest.new_order fields) empty_gateway

process_request-Answers_example :
    Answers session empty_gateway
      (process_request session (OrderRequest.new_order fields) empty_gateway)
process_request-Answers_example =
    process_request-Answers session (OrderRequest.new_order fields) empty_gateway empty-AllOrders

emit_fill-Fills_example :
    (let r = emit_fill 5 1 (pos 90) 3 (pos 101) open_gateway in
      ((r.0 ≡ false) × (r.1 ≡ open_gateway) × CannotFill 5 1 3 open_gateway)
      ⊎ ((s : OrderGatewaySession) × (o : OrderSnapshot) × (◌≢◌ {A = ℕ} 3 0)
          × (r.0 ≡ true)
          × (find 5 open_gateway.sessions_by_engine ≡ some s)
          × (find (order_key 5 1) open_gateway.orders_by_key ≡ some o)
          × (is_terminal o.status ≡ false)
          × Fills s (order_key 5 1) (pos 90) 3 (pos 101) o open_gateway r.1))
emit_fill-Fills_example = emit_fill-Fills 5 1 (pos 90) 3 (pos 101) open_gateway

calls-AllOrders_example : AllOrders (calls history empty_gateway).orders_by_key
calls-AllOrders_example = calls-AllOrders history empty_gateway empty-AllOrders

calls-terminal_example :
    find (order_key 5 1) (calls history over_gateway).orders_by_key ≡ some cancelled
unfolding find is_terminal key_beq
calls-terminal_example = calls-terminal history over_gateway (order_key 5 1) cancelled refl refl

drain_session-total_example :
    (ts : List OrderGatewayTransition) × (g' : Gateway) × (drain_session 2 session empty_gateway
      ≡ some (ts, g'))
    × AnswersAll session (available (requests_of session empty_gateway)) empty_gateway ts g'
    × (available (requests_of session g') ≡ [])
    × AllOrders g'.orders_by_key
drain_session-total_example =
    drain_session-total 2 session empty_gateway
      (record { partial = omega arith; filled = (omega arith, tt) }) empty-AllOrders
      (unfold available in omega arith)

-- A callback that counts the acknowledgements.
abbrev counting : Callbacks ℕ
counting = record { on_ack = some (λ f type n. n + 1); on_fill = none; on_reject = none }

drain_events-total_example :
    (channel' : OrderChannel) × (s' : ℕ) × (drain_events counting 2 channel 0
      ≡ some (length (available channel.events), (channel', s')))
    × Received counting (available channel.events) 0 s'
    × (available channel'.events ≡ [])
    × (channel'.requests ≡ channel.requests)
drain_events-total_example =
    drain_events-total counting 2 channel 0
      (record { partial = omega arith; filled = (omega arith, tt) })
      (unfold available in omega arith)

abbrev client : OrderGatewayClient
client = record { trading_engine_id = 5; channel = 2; next_order_id = 1 }

flush-send_order_example :
    (let r = send_order 7 Side.bid (pos 90) 4 (pos 100) client (λ a. channel) in
      (available (Client.flush r.1.0 r.1.1 2).requests
        ≡ requests_in client (λ a. channel)
          ++ (OrderRequest.new_order
                (client_fields client r.0 7 Side.bid (pos 90) 4 (pos 100) OrderStatus.new)
              ∷ []))
      × (r.1.0.next_order_id ≡ r.0 + 1))
flush-send_order_example =
    flush-send_order 7 Side.bid (pos 90) 4 (pos 100) client (λ a. channel) (omega arith)
