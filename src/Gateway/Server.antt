-- ===== src/Gateway/Server.antt =====
-- src/gateway/OrderGatewayServer.{hpp,cpp}: registration, the requests, and their answers.
pub mod Fills
pub mod Drain
pub mod Orders
pub mod Invariant
pub mod Terminal
pub mod Events
pub mod Filling
use Prim.Native.String.{String}
use backtester_lab.Base.{
  ℕ, ◌-◌, Bool, true, false, not, ◌&&◌, List, [], ◌∷◌, ◌++◌, Option, none, some, if◌then◌else◌,
  ◌==◌, ltb, length, nat_eq, nat_beq, nat_beq_iff, Eq, ◌≡◌, ◌↔◌, arith,
}
use backtester_lab.Base.Int.{ℤ, pos}
use backtester_lab.Domain.{Side, is_defined_price, has_valid_side}
use backtester_lab.Map.{Map, find, insert, contains}
use backtester_lab.Gateway.Messages.{
  OrderStatus, OrderMessageType, OrderAckType, OrderRejectReason, OrderFields, OrderRequest,
  OrderEvent, is_terminal,
}
use backtester_lab.Gateway.Channel.{Channels, push_event, flush_events, update_channel}
use backtester_lab.Gateway.Types.{
  OrderKey, key_eq, OrderGatewaySession, OrderSnapshot, OrderGatewayTransitionType,
  OrderGatewayTransition, Gateway, no_snapshot, reject_text_of,
}

unfoldable pub has_engine : ℕ → Gateway → Bool
has_engine engine g = contains engine g.sessions_by_engine

-- `none` as the channel is a null pointer, and `none` as the result the exception that it raises.
unfoldable pub register_engine : ℕ → Option ℕ → Gateway → Option Gateway
unfolding has_engine
register_engine engine none g = none
register_engine engine (some channel) g =
    let g' =
      if has_engine engine g
      then g
      else record g { engine_order = g.engine_order ++ (engine ∷ []) } in
    let session : OrderGatewaySession = record { trading_engine_id = engine; channel = channel } in
    some (record g' { sessions_by_engine = insert engine session g'.sessions_by_engine })

unfoldable pub push_to : ℕ → OrderEvent → Gateway → Gateway
push_to channel event g = record g {
  channels = update_channel channel (push_event event (g.channels channel)) g.channels;
}

unfoldable pub push_ack :
    OrderGatewaySession → OrderFields → OrderAckType → OrderStatus → Gateway → Gateway
unfolding push_to
push_ack session fields ack_type final_status g =
    push_to session.channel
      (OrderEvent.order_ack
        (record fields { trading_engine_id = session.trading_engine_id; status = final_status })
        ack_type)
      g

unfoldable pub push_reject :
    OrderGatewaySession
    → OrderFields
    → OrderMessageType
    → OrderRejectReason
    → Gateway
    → OrderGatewayTransition × Gateway
unfolding push_to
push_reject session fields request_type reason g =
    let rejected_fields : OrderFields = record fields {
      trading_engine_id = session.trading_engine_id;
      status = OrderStatus.rejected;
    } in
    (
      record {
        type = OrderGatewayTransitionType.rejected;
        request_type = request_type;
        fields = rejected_fields;
        snapshot = no_snapshot;
        reject_reason = reason;
        reject_text = reject_text_of reason;
      },
      push_to session.channel
          (OrderEvent.order_reject rejected_fields reason (reject_text_of reason)) g,
    )

unfoldable pub accepted_transition :
    OrderGatewayTransitionType
    → OrderMessageType
    → OrderFields
    → OrderSnapshot
    → OrderStatus
    → OrderGatewayTransition
accepted_transition type request_type fields snapshot final_status = record {
  type = type;
  request_type = request_type;
  fields = record fields { trading_engine_id = snapshot.trading_engine_id; status = final_status };
  snapshot = snapshot;
  reject_reason = OrderRejectReason.internal_error;
  reject_text = "";
}

abbrev pub key_of : OrderGatewaySession → OrderFields → OrderKey
key_of session fields = record {
  trading_engine_id = session.trading_engine_id;
  order_id = fields.order_id;
}

-- The order is stored, acknowledged, and returned as a transition: the end of each accepted request.
unfoldable pub accept :
    OrderGatewaySession
    → OrderFields
    → OrderGatewayTransitionType
    → OrderMessageType
    → OrderAckType
    → OrderSnapshot
    → Gateway
    → OrderGatewayTransition × Gateway
unfolding push_ack accepted_transition
accept session fields type request_type ack_type snapshot g = (
  accepted_transition type request_type fields snapshot snapshot.status,
  push_ack session fields ack_type snapshot.status
      (record g { orders_by_key = insert (key_of session fields) snapshot g.orders_by_key }),
)

abbrev pub new_snapshot : OrderGatewaySession → OrderFields → OrderSnapshot
new_snapshot session fields = record {
  trading_engine_id = session.trading_engine_id;
  order_id = fields.order_id;
  instrument_id = fields.instrument_id;
  side = fields.side;
  price = fields.price;
  original_size = fields.size;
  remaining_size = fields.size;
  status = OrderStatus.accepted;
  last_timestamp_ns = fields.timestamp_ns;
}

unfoldable pub process_new_order :
    OrderGatewaySession → OrderFields → Gateway → OrderGatewayTransition × Gateway
unfolding push_reject accept
process_new_order session fields g =
    let reject = λ (reason : OrderRejectReason).
      push_reject session fields OrderMessageType.new_order reason g in
    elim (find (key_of session fields) g.orders_by_key) [
      | some _ ↦ reject OrderRejectReason.duplicate_order_id
      | none ↦
          if fields.instrument_id == 0
          then reject OrderRejectReason.invalid_instrument
          else if not (has_valid_side fields.side)
          then reject OrderRejectReason.invalid_side
          else if not (is_defined_price fields.price)
          then reject OrderRejectReason.invalid_price
          else if fields.size == 0
          then reject OrderRejectReason.invalid_quantity
          else accept session fields OrderGatewayTransitionType.new_accepted
              OrderMessageType.new_order OrderAckType.new_accepted (new_snapshot session fields) g
    ]

abbrev pub cancelled_snapshot : OrderFields → OrderSnapshot → OrderSnapshot
cancelled_snapshot fields order = record order {
  status = OrderStatus.cancelled;
  last_timestamp_ns = fields.timestamp_ns;
}

unfoldable pub process_cancel_order :
    OrderGatewaySession → OrderFields → Gateway → OrderGatewayTransition × Gateway
unfolding push_reject accept
process_cancel_order session fields g =
    let reject = λ (reason : OrderRejectReason).
      push_reject session fields OrderMessageType.cancel_order reason g in
    elim (find (key_of session fields) g.orders_by_key) [
      | none ↦ reject OrderRejectReason.unknown_order_id
      | some order ↦
          if is_terminal order.status
          then reject OrderRejectReason.already_terminal
          else accept session fields OrderGatewayTransitionType.cancel_accepted
              OrderMessageType.cancel_order OrderAckType.cancel_accepted
              (cancelled_snapshot fields order) g
    ]

abbrev pub modified_snapshot : OrderFields → OrderSnapshot → OrderSnapshot
modified_snapshot fields order = record order {
  side = fields.side;
  price = fields.price;
  original_size = fields.size;
  remaining_size = fields.size;
  status = OrderStatus.accepted;
  last_timestamp_ns = fields.timestamp_ns;
}

unfoldable pub process_modify_order :
    OrderGatewaySession → OrderFields → Gateway → OrderGatewayTransition × Gateway
unfolding push_reject accept
process_modify_order session fields g =
    let reject = λ (reason : OrderRejectReason).
      push_reject session fields OrderMessageType.modify_order reason g in
    elim (find (key_of session fields) g.orders_by_key) [
      | none ↦ reject OrderRejectReason.unknown_order_id
      | some order ↦
          if is_terminal order.status
          then reject OrderRejectReason.already_terminal
          else if not (has_valid_side fields.side)
          then reject OrderRejectReason.invalid_side
          else if not (is_defined_price fields.price)
          then reject OrderRejectReason.invalid_price
          else if fields.size == 0
          then reject OrderRejectReason.invalid_quantity
          else accept session fields OrderGatewayTransitionType.modify_accepted
              OrderMessageType.modify_order OrderAckType.modify_accepted
              (modified_snapshot fields order) g
    ]

unfoldable pub process_request :
    OrderGatewaySession → OrderRequest → Gateway → OrderGatewayTransition × Gateway
process_request session (OrderRequest.new_order fields) g = process_new_order session fields g
process_request session (OrderRequest.cancel_order fields) g = process_cancel_order session fields g
process_request session (OrderRequest.modify_order fields) g = process_modify_order session fields g

abbrev pub order_key : ℕ → ℕ → OrderKey
order_key engine order_id = record { trading_engine_id = engine; order_id = order_id }
