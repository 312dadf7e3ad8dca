-- ===== src/Gateway/Client.antt =====
-- src/gateway/OrderGatewayClient.{hpp,cpp}: the client of one trading engine. It shares its channel
-- with the server, so a call takes the store of the channels and returns the new one.
pub mod Drain
use backtester_lab.Base.{
  ℕ, zero, suc, ◌+◌, ◌<◌, ◌≡◌, refl, ap, subst, ◌∙◌, List, [], ◌∷◌, ◌++◌, Option, none, some, arith,
  u64, u64_mod, length, nat_eq, beq_refl, Option-cases, inl, inr,
}
use backtester_lab.Base.Int.{ℤ, pos}
use backtester_lab.Domain.{Side}
use backtester_lab.Queue.{empty, out_of_range, item}
use backtester_lab.Queue.Fifo.{
  available, contents, contents-push, available-flush, IsQueue, try_pop-Popped, try_pop-IsQueue,
}
use backtester_lab.Gateway.Messages.{
  OrderStatus, OrderAckType, OrderRejectReason, OrderFields, OrderRequest, OrderEvent,
}
use backtester_lab.Gateway.Channel.{
  OrderChannel, Channels, push_request, flush_requests, try_pop_event, update_channel,
}
use Prim.Native.String.{String}

pub record OrderGatewayClient : Type 0 where
  pub trading_engine_id : ℕ
  pub channel : ℕ
  pub next_order_id : ℕ

-- `none` is the exception for a null channel.
unfoldable pub new_client : ℕ → Option ℕ → Option OrderGatewayClient
new_client engine none = none
new_client engine (some channel) =
    some (record { trading_engine_id = engine; channel = channel; next_order_id = 1 })

-- `channel_->pushRequest(...)`
unfoldable pub push_to_server : OrderRequest → OrderGatewayClient → Channels → Channels
push_to_server request c channels =
    update_channel c.channel (push_request request (channels c.channel)) channels

-- `sendOrder` with a whole order.
unfoldable pub send_new_order : OrderFields → OrderGatewayClient → Channels → Channels
unfolding push_to_server
send_new_order fields c channels =
    push_to_server
      (OrderRequest.new_order (record fields { trading_engine_id = c.trading_engine_id })) c
      channels

unfoldable pub next_order_id : OrderGatewayClient → ℕ × OrderGatewayClient
next_order_id c = (c.next_order_id, record c { next_order_id = u64 (c.next_order_id + 1) })

-- The fields of a request of this client.
abbrev pub client_fields : OrderGatewayClient → ℕ → ℕ → Side → ℤ → ℕ → ℤ → OrderStatus → OrderFields
client_fields c order_id instrument_id side price size timestamp status = record {
  trading_engine_id = c.trading_engine_id;
  order_id = order_id;
  instrument_id = instrument_id;
  side = side;
  price = price;
  size = size;
  timestamp_ns = timestamp;
  status = status;
}

unfoldable pub send_order :
    ℕ → Side → ℤ → ℕ → ℤ → OrderGatewayClient → Channels → ℕ × (OrderGatewayClient × Channels)
unfolding next_order_id send_new_order
send_order instrument_id side price size timestamp c channels =
    let next = next_order_id c in
    let fields = client_fields c next.0 instrument_id side price size timestamp OrderStatus.new in
    (next.0, (next.1, send_new_order fields next.1 channels))

unfoldable pub cancel_order : ℕ → ℕ → ℤ → OrderGatewayClient → Channels → Channels
unfolding push_to_server
cancel_order order_id instrument_id timestamp c channels =
    push_to_server
      (OrderRequest.cancel_order (
        client_fields c order_id instrument_id Side.none (pos 0) 0 timestamp
          OrderStatus.cancel_requested))
      c channels

unfoldable pub modify_order : ℕ → ℕ → Side → ℤ → ℕ → ℤ → OrderGatewayClient → Channels → Channels
unfolding push_to_server
modify_order order_id instrument_id side price size timestamp c channels =
    push_to_server
      (OrderRequest.modify_order (
        client_fields c order_id instrument_id side price size timestamp
          OrderStatus.modify_requested))
      c channels

unfoldable pub flush : OrderGatewayClient → Channels → Channels
flush c channels = update_channel c.channel (flush_requests (channels c.channel)) channels

-- The callbacks, on a state `S` of their owner; one that is not set is `none`.
pub record Callbacks (S : Type 0) : Type 0 where
  pub on_ack : Option (OrderFields → OrderAckType → S → S)
  pub on_fill : Option (OrderFields → ℤ → ℕ → ℕ → S → S)
  pub on_reject : Option (OrderFields → OrderRejectReason → String → S → S)

module _ {S : Type 0} (callbacks : Callbacks S) where
  unfoldable pub dispatch_event : OrderEvent → S → S
  dispatch_event (OrderEvent.order_ack f type) s = elim callbacks.on_ack [
    | none ↦ s
    | some g ↦ g f type s
  ]
  dispatch_event (OrderEvent.order_fill f price n left) s = elim callbacks.on_fill [
    | none ↦ s
    | some g ↦ g f price n left s
  ]
  dispatch_event (OrderEvent.order_reject f reason text) s = elim callbacks.on_reject [
    | none ↦ s
    | some g ↦ g f reason text s
  ]

  -- The loop of `drainEvents`, on the client's channel: how many events it took. `none` means that
  -- the fuel ran out.
  unfoldable pub drain_events : ℕ → OrderChannel → S → Option (ℕ × (OrderChannel × S))
  unfolding dispatch_event
  drain_events zero channel s = none
  drain_events (suc fuel) channel s =
      let popped = try_pop_event channel in
      elim popped.0 [
        | empty ↦ some (0, (popped.1, s))
        | out_of_range ↦ none
        | item event ↦ elim (drain_events fuel popped.1 (dispatch_event event s)) [
          | none ↦ none
          | some rest ↦ some (suc rest.0, rest.1)
        ]
      ]

-- The requests that a client's channel holds.
abbrev pub requests_in : OrderGatewayClient → Channels → List OrderRequest
requests_in c channels = contents (channels c.channel).requests

-- An order that is sent and flushed stands last among the visible requests, with the id that the
-- call returned and the client's engine id, and the next order gets the next id, while the ids stay
-- below 2 ^ 64.
pub flush-send_order :
    (instrument_id : ℕ) (side : Side) (price : ℤ) (size : ℕ) (timestamp : ℤ)
    (c : OrderGatewayClient) (channels : Channels)
    → c.next_order_id + 1 < u64_mod
    → let r = send_order instrument_id side price size timestamp c channels in
      (available (flush r.1.0 r.1.1 c.channel).requests
        ≡ requests_in c channels
          ++ (OrderRequest.new_order
                (client_fields c r.0 instrument_id side price size timestamp OrderStatus.new)
              ∷ []))
      × (r.1.0.next_order_id ≡ r.0 + 1)
unfolding send_order next_order_id send_new_order push_to_server flush update_channel flush_requests
    push_request
flush-send_order instrument_id side price size timestamp c channels h = (
  rw (beq_refl c.channel) (available-flush _ ∙ contents-push _ (channels c.channel).requests),
  omega arith,
)
