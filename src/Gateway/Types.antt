-- ===== src/Gateway/Types.antt =====
-- The types of src/gateway/OrderGatewayServer.{hpp,cpp}: sessions, snapshots of orders, transitions,
-- and the state, which holds the server's members and the store of the channels.
use Prim.Native.String.{String}
use backtester_lab.Base.{ℕ, Bool, true, ◌&&◌, List, nat_eq, nat_beq, Eq, ◌≡◌, ◌↔◌, arith}
use backtester_lab.Base.Int.{ℤ, pos}
use backtester_lab.Domain.{Side}
use backtester_lab.Map.{Map}
use backtester_lab.Gateway.Messages.{OrderStatus, OrderMessageType, OrderRejectReason, OrderFields}
use backtester_lab.Gateway.Channel.{Channels}

pub record OrderKey : Type 0 where
  pub trading_engine_id : ℕ
  pub order_id : ℕ

unfoldable pub key_beq : OrderKey → OrderKey → Bool
key_beq a b = nat_beq a.trading_engine_id b.trading_engine_id && nat_beq a.order_id b.order_id

pub key_beq_iff : (a b : OrderKey) → (key_beq a b ≡ true) ↔ (a ≡ b)
unfolding key_beq
key_beq_iff a b = ground arith

instance abbrev pub key_eq : Eq OrderKey
key_eq = record { beq = key_beq; beq_iff = key_beq_iff }

-- `channel` is the address of the session's channel.
pub record OrderGatewaySession : Type 0 where
  pub trading_engine_id : ℕ
  pub channel : ℕ

pub record OrderSnapshot : Type 0 where
  pub trading_engine_id : ℕ
  pub order_id : ℕ
  pub instrument_id : ℕ
  pub side : Side
  pub price : ℤ
  pub original_size : ℕ
  pub remaining_size : ℕ
  pub status : OrderStatus
  pub last_timestamp_ns : ℤ

pub data OrderGatewayTransitionType : Type 0 where
  new_accepted modify_accepted cancel_accepted rejected : OrderGatewayTransitionType

pub record OrderGatewayTransition : Type 0 where
  pub type : OrderGatewayTransitionType
  pub request_type : OrderMessageType
  pub fields : OrderFields
  pub snapshot : OrderSnapshot
  pub reject_reason : OrderRejectReason
  pub reject_text : String

pub record Gateway : Type 0 where
  pub engine_order : List ℕ
  pub sessions_by_engine : Map ℕ OrderGatewaySession
  pub orders_by_key : Map OrderKey OrderSnapshot
  pub channels : Channels

-- `OrderSnapshot{}`.
abbrev pub no_snapshot : OrderSnapshot
no_snapshot = record {
  trading_engine_id = 0;
  order_id = 0;
  instrument_id = 0;
  side = Side.none;
  price = pos 0;
  original_size = 0;
  remaining_size = 0;
  status = OrderStatus.new;
  last_timestamp_ns = pos 0;
}

unfoldable pub reject_text_of : OrderRejectReason → String
reject_text_of OrderRejectReason.duplicate_order_id = "duplicate order id"
reject_text_of OrderRejectReason.unknown_order_id = "unknown order id"
reject_text_of OrderRejectReason.invalid_instrument = "invalid instrument"
reject_text_of OrderRejectReason.invalid_side = "invalid side"
reject_text_of OrderRejectReason.invalid_price = "invalid price"
reject_text_of OrderRejectReason.invalid_quantity = "invalid quantity"
reject_text_of OrderRejectReason.already_terminal = "order already terminal"
reject_text_of OrderRejectReason.internal_error = "internal error"
