-- ===== src/Gateway/Server/Terminal.antt =====
-- Sequences of calls on the server: requests and fills in any order.
use backtester_lab.Base.{
  ℕ, ◌≡◌, sym, subst, true, false, List, [], ◌∷◌, Option, some, arith, nat_eq, inl, inr, Bool-cases,
  Option-cases,
}
use backtester_lab.Base.Int.{ℤ}
use backtester_lab.Map.{find}
use backtester_lab.Map.Laws.{find-insert}
use backtester_lab.Gateway.Messages.{OrderRequest, is_terminal}
use backtester_lab.Gateway.Types.{
  OrderKey, key_eq, key_beq, key_beq_iff, OrderGatewaySession, OrderSnapshot, Gateway,
}
use backtester_lab.Gateway.Server.{process_request, order_key}
use backtester_lab.Gateway.Server.Fills.{emit_fill, filled_snapshot}
use backtester_lab.Gateway.Server.Orders.{
  Accepts, opens, cancels, modifies, key_for, process_request-Answered,
}
use backtester_lab.Gateway.Server.Invariant.{
  AllOrders, process_request-AllOrders, emit_fill-AllOrders,
}

pub data Call : Type 0 where
  request : OrderGatewaySession → OrderRequest → Call
  fill : ℕ → ℕ → ℤ → ℕ → ℤ → Call

unfoldable pub call : Call → Gateway → Gateway
call (request session r) g = (process_request session r g).1
call (fill engine order_id price n timestamp) g = (emit_fill engine order_id price n timestamp g).1

unfoldable pub calls : List Call → Gateway → Gateway
calls [] g = g
calls (c ∷ cs) g = calls cs (call c g)

-- Any sequence of requests and fills keeps the stored orders valid.
pub calls-AllOrders :
    (cs : List Call) (g : Gateway)
    → AllOrders g.orders_by_key
    → AllOrders (calls cs g).orders_by_key
unfolding calls call
calls-AllOrders [] g v = v
calls-AllOrders (request session r ∷ cs) g v =
    calls-AllOrders cs _ (process_request-AllOrders session r g v)
calls-AllOrders (fill engine order_id price n timestamp ∷ cs) g v =
    calls-AllOrders cs _ (emit_fill-AllOrders engine order_id price n timestamp g v)

-- The relation replaces no order that is over.
Accepts-active :
    {session : OrderGatewaySession} {r : OrderRequest} {old : Option OrderSnapshot}
    {o : OrderSnapshot}
    → Accepts session r old o
    → (p : OrderSnapshot) → old ≡ some p
    → is_terminal p.status ≡ false
Accepts-active (opens f instrument side price size) p e = cc
Accepts-active (cancels f q active) p e = ground arith
Accepts-active (modifies f q active side price size) p e = ground arith

request-terminal :
    (session : OrderGatewaySession) (r : OrderRequest) (g : Gateway) (k : OrderKey)
    (o : OrderSnapshot)
    → find k g.orders_by_key ≡ some o
    → is_terminal o.status ≡ true
    → find k (process_request session r g).1.orders_by_key ≡ some o
request-terminal session r g k o found over = elim (process_request-Answered session r g) [
  | inl (_, same, _) ↦ rw same found
  | inr (p, _, _, stored, accepted) ↦ elim (Bool-cases (key_beq (key_for session r) k)) [
    | inl here ↦
        let at : find (key_for session r) g.orders_by_key ≡ some o =
          subst (λ j. find j g.orders_by_key ≡ some o) (sym ((key_beq_iff _ k).0 here)) found in
        let active : is_terminal o.status ≡ false = Accepts-active accepted o at in
        absurd (ground arith)
    | inr there ↦
        rw stored (ground (arith, there, find-insert k (key_for session r) p g.orders_by_key))
  ]
]

fill-terminal :
    (engine order_id : ℕ) (price : ℤ) (n : ℕ) (timestamp : ℤ) (g : Gateway) (k : OrderKey)
    (o : OrderSnapshot)
    → find k g.orders_by_key ≡ some o
    → is_terminal o.status ≡ true
    → find k (emit_fill engine order_id price n timestamp g).1.orders_by_key ≡ some o
unfolding emit_fill
fill-terminal engine order_id price n timestamp g k o found over =
    elim (Option-cases (find (order_key engine order_id) g.orders_by_key)) [
      | inl no_order ↦ ground arith
      | inr (p, stored) ↦ ground (
        arith,
        key_beq_iff (order_key engine order_id) k,
        find-insert k (order_key engine order_id) (filled_snapshot n timestamp p) g.orders_by_key,
      )
    ]

-- An order that is filled, cancelled or rejected stays as it is, whatever calls follow.
pub calls-terminal :
    (cs : List Call) (g : Gateway) (k : OrderKey) (o : OrderSnapshot)
    → find k g.orders_by_key ≡ some o
    → is_terminal o.status ≡ true
    → find k (calls cs g).orders_by_key ≡ some o
unfolding calls call
calls-terminal [] g k o found over = found
calls-terminal (request session r ∷ cs) g k o found over =
    calls-terminal cs _ k o (request-terminal session r g k o found over) over
calls-terminal (fill engine order_id price n timestamp ∷ cs) g k o found over =
    calls-terminal cs _ k o (fill-terminal engine order_id price n timestamp g k o found over) over
