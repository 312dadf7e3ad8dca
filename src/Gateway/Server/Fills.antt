-- ===== src/Gateway/Server/Fills.antt =====
-- src/gateway/OrderGatewayServer.cpp: `emitFill`, and the reads of the orders.
use backtester_lab.Base.{
  ℕ, ◌-◌, Bool, true, false, Option, none, some, if◌then◌else◌, ◌==◌, ltb, nat_eq,
}
use backtester_lab.Base.Int.{ℤ}
use backtester_lab.Map.{find, insert, sum_by}
use backtester_lab.Gateway.Messages.{OrderStatus, OrderEvent, is_terminal}
use backtester_lab.Gateway.Types.{OrderKey, key_eq, OrderGatewaySession, OrderSnapshot, Gateway}
use backtester_lab.Gateway.Server.{order_key, push_to}

-- `actual_fill_size`.
unfoldable pub actual_fill_size : ℕ → OrderSnapshot → ℕ
actual_fill_size fill_size order =
    if ltb fill_size order.remaining_size then fill_size else order.remaining_size

abbrev pub filled_snapshot : ℕ → ℤ → OrderSnapshot → OrderSnapshot
filled_snapshot fill_size timestamp order = record order {
  remaining_size = order.remaining_size - actual_fill_size fill_size order;
  status =
      if order.remaining_size - actual_fill_size fill_size order == 0
      then OrderStatus.filled
      else OrderStatus.partially_filled;
  last_timestamp_ns = timestamp;
}

-- The fill event of an order after the fill.
abbrev pub fill_event : OrderSnapshot → ℤ → ℕ → OrderEvent
fill_event order fill_price actual =
    OrderEvent.order_fill
      (record {
        trading_engine_id = order.trading_engine_id;
        order_id = order.order_id;
        instrument_id = order.instrument_id;
        side = order.side;
        price = order.price;
        size = order.original_size;
        timestamp_ns = order.last_timestamp_ns;
        status = order.status;
      })
      fill_price actual order.remaining_size

-- The end of `emitFill`, for an open order of a session.
unfoldable pub fill_order :
    OrderGatewaySession → OrderKey → ℤ → ℕ → ℤ → OrderSnapshot → Gateway → Gateway
unfolding push_to
fill_order session key fill_price fill_size timestamp order g =
    let order' = filled_snapshot fill_size timestamp order in
    push_to session.channel (fill_event order' fill_price (actual_fill_size fill_size order))
      (record g { orders_by_key = insert key order' g.orders_by_key })

unfoldable pub emit_fill : ℕ → ℕ → ℤ → ℕ → ℤ → Gateway → Bool × Gateway
unfolding fill_order
emit_fill engine order_id fill_price fill_size timestamp g =
    if fill_size == 0 then (false, g) else elim (find engine g.sessions_by_engine) [
      | none ↦ (false, g)
      | some session ↦ elim (find (order_key engine order_id) g.orders_by_key) [
        | none ↦ (false, g)
        | some order ↦ if is_terminal order.status then (false, g) else (
          true,
          fill_order session (order_key engine order_id) fill_price fill_size timestamp order g,
        )
      ]
    ]

unfoldable pub open_order_count : Gateway → ℕ
open_order_count g = sum_by (λ o. if is_terminal o.status then 0 else 1) g.orders_by_key

unfoldable pub find_order : ℕ → ℕ → Gateway → Option OrderSnapshot
find_order engine order_id g = find (order_key engine order_id) g.orders_by_key
