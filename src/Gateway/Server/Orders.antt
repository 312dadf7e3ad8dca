-- ===== src/Gateway/Server/Orders.antt =====
-- The relation of the requests that the server may accept.
use backtester_lab.Base.{
  ◌≡◌, refl, sym, subst, ◌≢◌, Bool, true, false, not, ◌&&◌, Option, none, some, arith, ◌==◌, nat_eq,
  ◌⊎◌, inl, inr, Bool-cases, Option-cases,
}
use backtester_lab.Domain.{is_defined_price, has_valid_side}
use backtester_lab.Map.{find, insert}
use backtester_lab.Gateway.Messages.{OrderFields, OrderRequest, request_fields, is_terminal}
use backtester_lab.Gateway.Types.{
  OrderKey, key_eq, OrderGatewaySession, OrderSnapshot, OrderGatewayTransitionType,
  OrderGatewayTransition, Gateway,
}
use backtester_lab.Gateway.Server.{
  key_of, new_snapshot, cancelled_snapshot, modified_snapshot, process_new_order,
  process_cancel_order, process_modify_order, process_request,
}

-- A request, the order that stands under its key, and the order that it leaves there.
pub data Accepts (session : OrderGatewaySession)
    : OrderRequest → Option OrderSnapshot → OrderSnapshot → Type 0 where
  opens :
      (f : OrderFields)
      → f.instrument_id ≢ 0
      → has_valid_side f.side ≡ true
      → is_defined_price f.price ≡ true
      → f.size ≢ 0
      → Accepts session (OrderRequest.new_order f) none (new_snapshot session f)
  cancels :
      (f : OrderFields) (o : OrderSnapshot)
      → is_terminal o.status ≡ false
      → Accepts session (OrderRequest.cancel_order f) (some o) (cancelled_snapshot f o)
  modifies :
      (f : OrderFields) (o : OrderSnapshot)
      → is_terminal o.status ≡ false
      → has_valid_side f.side ≡ true
      → is_defined_price f.price ≡ true
      → f.size ≢ 0
      → Accepts session (OrderRequest.modify_order f) (some o) (modified_snapshot f o)

-- The key of a request.
abbrev pub key_for : OrderGatewaySession → OrderRequest → OrderKey
key_for session request = key_of session (request_fields request)

-- An accepted request stores the order that the relation allows; a rejected one changes no order,
-- and the relation allows none.
abbrev pub Answered :
    OrderGatewaySession → OrderRequest → Gateway → OrderGatewayTransition × Gateway → Type 0
Answered session request g r =
    ((r.0.type ≡ OrderGatewayTransitionType.rejected)
      × (r.1.orders_by_key ≡ g.orders_by_key)
      × ((o : OrderSnapshot)
          → ¬ Accepts session request (find (key_for session request) g.orders_by_key) o))
    ⊎ ((o : OrderSnapshot) × (r.0.type ≢ OrderGatewayTransitionType.rejected)
        × (r.0.snapshot ≡ o)
        × (r.1.orders_by_key ≡ insert (key_for session request) o g.orders_by_key)
        × Accepts session request (find (key_for session request) g.orders_by_key) o)

opens-inv :
    {session : OrderGatewaySession} {f : OrderFields} {old : Option OrderSnapshot}
    {o : OrderSnapshot}
    → Accepts session (OrderRequest.new_order f) old o
    → (old ≡ none)
      × (f.instrument_id ≢ 0)
      × (has_valid_side f.side ≡ true)
      × (is_defined_price f.price ≡ true)
      × (f.size ≢ 0)
opens-inv (opens f instrument side price size) = (refl, instrument, side, price, size)

cancels-inv :
    {session : OrderGatewaySession} {f : OrderFields} {old : Option OrderSnapshot}
    {o : OrderSnapshot}
    → Accepts session (OrderRequest.cancel_order f) old o
    → (p : OrderSnapshot) × (old ≡ some p) × (is_terminal p.status ≡ false)
cancels-inv (cancels f p active) = (p, refl, active)

modifies-inv :
    {session : OrderGatewaySession} {f : OrderFields} {old : Option OrderSnapshot}
    {o : OrderSnapshot}
    → Accepts session (OrderRequest.modify_order f) old o
    → (p : OrderSnapshot) × (old ≡ some p)
      × (is_terminal p.status ≡ false)
      × (has_valid_side f.side ≡ true)
      × (is_defined_price f.price ≡ true)
      × (f.size ≢ 0)
modifies-inv (modifies f p active side price size) = (p, refl, active, side, price, size)

-- The tests on the fields of a new or modified order.
fields_ok : OrderFields → Bool
fields_ok f = has_valid_side f.side && (is_defined_price f.price && not (f.size == 0))

process_new_order-Answered :
    (session : OrderGatewaySession) (f : OrderFields) (g : Gateway)
    → Answered session (OrderRequest.new_order f) g (process_new_order session f g)
unfolding process_new_order request_fields fields_ok
process_new_order-Answered session f g =
    elim (Option-cases (find (key_of session f) g.orders_by_key)) [
      | inl fresh ↦ elim (Bool-cases (not (f.instrument_id == 0) && fields_ok f)) [
        | inl ok ↦ inr (
          new_snapshot session f,
          ground arith,
          ground arith,
          ground arith,
          subst (λ old. Accepts session (OrderRequest.new_order f) old (new_snapshot session f))
              (sym fresh) (opens f (ground arith) (ground arith) (ground arith) (ground arith)),
        )
        | inr bad ↦ inl (ground arith, ground arith, λ o a. ground (arith, opens-inv a))
      ]
      | inr (p, found) ↦ inl (ground arith, ground arith, λ o a. ground (arith, opens-inv a))
    ]

process_cancel_order-Answered :
    (session : OrderGatewaySession) (f : OrderFields) (g : Gateway)
    → Answered session (OrderRequest.cancel_order f) g (process_cancel_order session f g)
unfolding process_cancel_order request_fields
process_cancel_order-Answered session f g =
    elim (Option-cases (find (key_of session f) g.orders_by_key)) [
      | inl unknown ↦ inl (ground arith, ground arith, λ o a. ground (arith, cancels-inv a))
      | inr (p, found) ↦ elim (Bool-cases (is_terminal p.status)) [
        | inl over ↦ inl (ground arith, ground arith, λ o a. ground (arith, cancels-inv a))
        | inr active ↦ inr (
          cancelled_snapshot f p,
          ground arith,
          ground arith,
          ground arith,
          subst (λ old. Accepts session (OrderRequest.cancel_order f) old (cancelled_snapshot f p))
              (sym found) (cancels f p active),
        )
      ]
    ]

process_modify_order-Answered :
    (session : OrderGatewaySession) (f : OrderFields) (g : Gateway)
    → Answered session (OrderRequest.modify_order f) g (process_modify_order session f g)
unfolding process_modify_order request_fields fields_ok
process_modify_order-Answered session f g =
    elim (Option-cases (find (key_of session f) g.orders_by_key)) [
      | inl unknown ↦ inl (ground arith, ground arith, λ o a. ground (arith, modifies-inv a))
      | inr (p, found) ↦ elim (Bool-cases (not (is_terminal p.status) && fields_ok f)) [
        | inl ok ↦ inr (
          modified_snapshot f p,
          ground arith,
          ground arith,
          ground arith,
          subst (λ old. Accepts session (OrderRequest.modify_order f) old (modified_snapshot f p))
              (sym found)
              (modifies f p (ground arith) (ground arith) (ground arith) (ground arith)),
        )
        | inr bad ↦ inl (ground arith, ground arith, λ o a. ground (arith, modifies-inv a))
      ]
    ]

-- The server accepts exactly the requests that the relation allows, and changes no other order.
pub process_request-Answered :
    (session : OrderGatewaySession) (request : OrderRequest) (g : Gateway)
    → Answered session request g (process_request session request g)
unfolding process_request
process_request-Answered session (OrderRequest.new_order f) g =
    process_new_order-Answered session f g
process_request-Answered session (OrderRequest.cancel_order f) g =
    process_cancel_order-Answered session f g
process_request-Answered session (OrderRequest.modify_order f) g =
    process_modify_order-Answered session f g
