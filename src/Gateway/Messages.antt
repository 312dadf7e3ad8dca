-- ===== src/Gateway/Messages.antt =====
-- src/gateway/OrderMessage.hpp: requests, events, and their common fields. `OrderStatus` is of
-- src/domain/Types.hpp.
use Prim.Native.String.{String}
use backtester_lab.Base.{ℕ, Bool, true, false}
use backtester_lab.Base.Int.{ℤ}
use backtester_lab.Domain.{Side}

pub data OrderStatus : Type 0 where
  new accepted modify_requested cancel_requested partially_filled filled cancelled rejected :
      OrderStatus

pub data OrderMessageType : Type 0 where
  new_order cancel_order modify_order order_ack order_fill order_reject : OrderMessageType

pub data OrderAckType : Type 0 where
  new_accepted modify_accepted cancel_accepted : OrderAckType

pub data OrderRejectReason : Type 0 where
  duplicate_order_id unknown_order_id invalid_instrument invalid_side invalid_price :
      OrderRejectReason
  invalid_quantity already_terminal internal_error : OrderRejectReason

pub record OrderFields : Type 0 where
  pub trading_engine_id : ℕ
  pub order_id : ℕ
  pub instrument_id : ℕ
  pub side : Side
  pub price : ℤ
  pub size : ℕ
  pub timestamp_ns : ℤ
  pub status : OrderStatus

-- `std::variant<NewOrder, CancelOrder, ModifyOrder>`.
pub data OrderRequest : Type 0 where
  new_order : OrderFields → OrderRequest
  cancel_order : OrderFields → OrderRequest
  modify_order : OrderFields → OrderRequest

-- `std::variant<OrderAck, OrderFill, OrderReject>`: a fill has its price, its size and what remains.
pub data OrderEvent : Type 0 where
  order_ack : OrderFields → OrderAckType → OrderEvent
  order_fill : OrderFields → ℤ → ℕ → ℕ → OrderEvent
  order_reject : OrderFields → OrderRejectReason → String → OrderEvent

unfoldable pub request_fields : OrderRequest → OrderFields
request_fields (OrderRequest.new_order f) = f
request_fields (OrderRequest.cancel_order f) = f
request_fields (OrderRequest.modify_order f) = f

unfoldable pub event_fields : OrderEvent → OrderFields
event_fields (OrderEvent.order_ack f t) = f
event_fields (OrderEvent.order_fill f p n r) = f
event_fields (OrderEvent.order_reject f r t) = f

unfoldable pub request_type : OrderRequest → OrderMessageType
request_type (OrderRequest.new_order f) = OrderMessageType.new_order
request_type (OrderRequest.cancel_order f) = OrderMessageType.cancel_order
request_type (OrderRequest.modify_order f) = OrderMessageType.modify_order

unfoldable pub event_type : OrderEvent → OrderMessageType
event_type (OrderEvent.order_ack f t) = OrderMessageType.order_ack
event_type (OrderEvent.order_fill f p n r) = OrderMessageType.order_fill
event_type (OrderEvent.order_reject f r t) = OrderMessageType.order_reject

-- The size that a fill event states; 0 for the other events.
unfoldable pub filled_size : OrderEvent → ℕ
filled_size (OrderEvent.order_fill f p n r) = n
filled_size _ = 0

unfoldable pub is_terminal : OrderStatus → Bool
is_terminal OrderStatus.filled = true
is_terminal OrderStatus.cancelled = true
is_terminal OrderStatus.rejected = true
is_terminal _ = false
