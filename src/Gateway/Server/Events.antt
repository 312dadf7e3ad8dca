-- ===== src/Gateway/Server/Events.antt =====
-- The events that the server pushes for requests and for fills.
use backtester_lab.Base.{
  ℕ, ◌≡◌, refl, ◌≢◌, List, [], ◌∷◌, ◌++◌, arith, ◌==◌, nat_eq, nat_beq_iff, beq_refl, inl, inr,
  Bool-cases, Option-cases,
}
use backtester_lab.Domain.{has_valid_side, is_defined_price}
use backtester_lab.Map.{find, insert}
use backtester_lab.Queue.Fifo.{contents, contents-push}
use backtester_lab.Gateway.Messages.{
  OrderAckType, OrderMessageType, OrderRejectReason, OrderFields, OrderRequest, OrderEvent,
  event_fields, is_terminal,
}
use backtester_lab.Gateway.Channel.{Channels, push_event, update_channel}
use backtester_lab.Gateway.Types.{
  key_eq, OrderGatewaySession, OrderSnapshot, OrderGatewayTransition, Gateway,
  OrderGatewayTransitionType,
}
use backtester_lab.Gateway.Server.{
  push_to, push_ack, push_reject, accepted_transition, accept, new_snapshot, cancelled_snapshot,
  modified_snapshot, key_of, process_new_order, process_cancel_order, process_modify_order,
  process_request,
}
use backtester_lab.Gateway.Server.Invariant.{AllOrders}

-- The events that wait in a channel, pushed or published.
abbrev pub events_in : ℕ → Channels → List OrderEvent
events_in channel channels = contents (channels channel).events

-- One event more in one channel, and nothing else changed in any channel.
pub record Sends (channel : ℕ) (event : OrderEvent) (before after : Channels) : Type 0 where
  pub sent : events_in channel after ≡ events_in channel before ++ (event ∷ [])
  pub requests : (after channel).requests ≡ (before channel).requests
  pub others : (c : ℕ) → channel ≢ c → after c ≡ before c

pub push_to-Sends :
    (channel : ℕ) (event : OrderEvent) (g : Gateway)
    → Sends channel event g.channels (push_to channel event g).channels
unfolding push_to update_channel push_event
push_to-Sends channel event g = record {
  sent = rw (beq_refl channel) (contents-push event (g.channels channel).events);
  requests = rw (beq_refl channel);
  others = λ c h. ground (arith, nat_beq_iff channel c);
}

-- The answer to a request: the transition and the event state the same fields.
abbrev pub Answers : OrderGatewaySession → Gateway → OrderGatewayTransition × Gateway → Type 0
Answers session g r =
    (event : OrderEvent) × (event_fields event ≡ r.0.fields)
    × Sends session.channel event g.channels r.1.channels

push_reject-Answers :
    (session : OrderGatewaySession) (f : OrderFields) (type : OrderMessageType)
    (reason : OrderRejectReason) (g : Gateway)
    → Answers session g (push_reject session f type reason g)
unfolding push_reject event_fields
push_reject-Answers session f type reason g = (_, refl, push_to-Sends session.channel _ g)

accept-Answers :
    (session : OrderGatewaySession) (f : OrderFields) (type : OrderGatewayTransitionType)
    (request_type : OrderMessageType) (ack_type : OrderAckType) (o : OrderSnapshot) (g : Gateway)
    → o.trading_engine_id ≡ session.trading_engine_id
    → Answers session g (accept session f type request_type ack_type o g)
unfolding accept push_ack accepted_transition event_fields
accept-Answers session f type request_type ack_type o g same = (
  OrderEvent.order_ack
      (record f { trading_engine_id = session.trading_engine_id; status = o.status }) ack_type,
  ground arith,
  push_to-Sends session.channel _
      (record g { orders_by_key = insert (key_of session f) o g.orders_by_key }),
)

process_new_order-Answers :
    (session : OrderGatewaySession) (f : OrderFields) (g : Gateway)
    → Answers session g (process_new_order session f g)
unfolding process_new_order
process_new_order-Answers session f g =
    elim (Option-cases (find (key_of session f) g.orders_by_key)) [
      | inr (o, found) ↦
          rw (found, process_new_order)
            (push_reject-Answers session f OrderMessageType.new_order
              OrderRejectReason.duplicate_order_id g)
      | inl fresh ↦ elim (Bool-cases (f.instrument_id == 0)) [
        | inl h ↦
            rw (fresh, h, process_new_order)
              (push_reject-Answers session f OrderMessageType.new_order
                OrderRejectReason.invalid_instrument g)
        | inr h ↦ elim (Bool-cases (has_valid_side f.side)) [
          | inr i ↦
              rw (fresh, h, i, process_new_order)
                (push_reject-Answers session f OrderMessageType.new_order
                  OrderRejectReason.invalid_side g)
          | inl i ↦ elim (Bool-cases (is_defined_price f.price)) [
            | inr j ↦
                rw (fresh, h, i, j, process_new_order)
                  (push_reject-Answers session f OrderMessageType.new_order
                    OrderRejectReason.invalid_price g)
            | inl j ↦ elim (Bool-cases (f.size == 0)) [
              | inl k ↦
                  rw (fresh, h, i, j, k, process_new_order)
                    (push_reject-Answers session f OrderMessageType.new_order
                      OrderRejectReason.invalid_quantity g)
              | inr k ↦
                  rw (fresh, h, i, j, k, process_new_order)
                    (accept-Answers session f OrderGatewayTransitionType.new_accepted
                      OrderMessageType.new_order OrderAckType.new_accepted (new_snapshot session f)
                      g refl)
            ]
          ]
        ]
      ]
    ]

process_cancel_order-Answers :
    (session : OrderGatewaySession) (f : OrderFields) (g : Gateway)
    → AllOrders g.orders_by_key
    → Answers session g (process_cancel_order session f g)
unfolding process_cancel_order
process_cancel_order-Answers session f g v =
    elim (Option-cases (find (key_of session f) g.orders_by_key)) [
      | inl unknown ↦
          rw (unknown, process_cancel_order)
            (push_reject-Answers session f OrderMessageType.cancel_order
              OrderRejectReason.unknown_order_id g)
      | inr (o, found) ↦ elim (Bool-cases (is_terminal o.status)) [
        | inl over ↦
            rw (found, over, process_cancel_order)
              (push_reject-Answers session f OrderMessageType.cancel_order
                OrderRejectReason.already_terminal g)
        | inr active ↦
            rw (found, active, process_cancel_order)
              (accept-Answers session f OrderGatewayTransitionType.cancel_accepted
                OrderMessageType.cancel_order OrderAckType.cancel_accepted (cancelled_snapshot f o)
                g (v _ o found).engine)
      ]
    ]

process_modify_order-Answers :
    (session : OrderGatewaySession) (f : OrderFields) (g : Gateway)
    → AllOrders g.orders_by_key
    → Answers session g (process_modify_order session f g)
unfolding process_modify_order
process_modify_order-Answers session f g v =
    elim (Option-cases (find (key_of session f) g.orders_by_key)) [
      | inl unknown ↦
          rw (unknown, process_modify_order)
            (push_reject-Answers session f OrderMessageType.modify_order
              OrderRejectReason.unknown_order_id g)
      | inr (o, found) ↦ elim (Bool-cases (is_terminal o.status)) [
        | inl h ↦
            rw (found, h, process_modify_order)
              (push_reject-Answers session f OrderMessageType.modify_order
                OrderRejectReason.already_terminal g)
        | inr h ↦ elim (Bool-cases (has_valid_side f.side)) [
          | inr i ↦
              rw (found, h, i, process_modify_order)
                (push_reject-Answers session f OrderMessageType.modify_order
                  OrderRejectReason.invalid_side g)
          | inl i ↦ elim (Bool-cases (is_defined_price f.price)) [
            | inr j ↦
                rw (found, h, i, j, process_modify_order)
                  (push_reject-Answers session f OrderMessageType.modify_order
                    OrderRejectReason.invalid_price g)
            | inl j ↦ elim (Bool-cases (f.size == 0)) [
              | inl k ↦
                  rw (found, h, i, j, k, process_modify_order)
                    (push_reject-Answers session f OrderMessageType.modify_order
                      OrderRejectReason.invalid_quantity g)
              | inr k ↦
                  rw (found, h, i, j, k, process_modify_order)
                    (accept-Answers session f OrderGatewayTransitionType.modify_accepted
                      OrderMessageType.modify_order OrderAckType.modify_accepted
                      (modified_snapshot f o) g (v _ o found).engine)
            ]
          ]
        ]
      ]
    ]

-- A request is answered by one event with the fields of the transition, pushed to the channel of its
-- session; no request is taken, and no other channel changes. The stored orders are valid.
pub process_request-Answers :
    (session : OrderGatewaySession) (request : OrderRequest) (g : Gateway)
    → AllOrders g.orders_by_key
    → Answers session g (process_request session request g)
unfolding process_request
process_request-Answers session (OrderRequest.new_order f) g v =
    process_new_order-Answers session f g
process_request-Answers session (OrderRequest.cancel_order f) g v =
    process_cancel_order-Answers session f g v
process_request-Answers session (OrderRequest.modify_order f) g v =
    process_modify_order-Answers session f g v
