-- ===== src/Gateway/Server/Invariant.antt =====
-- The invariant of the stored orders.
use backtester_lab.Base.{
  ℕ, ◌≤◌, ◌<◌, ◌≡◌, refl, sym, subst, ◌≢◌, true, false, Option, some, arith, ◌==◌, nat_eq,
  nat_beq_iff, inl, inr, Bool-cases, Option-cases,
}
use backtester_lab.Base.Int.{ℤ}
use backtester_lab.Domain.{is_defined_price, has_valid_side}
use backtester_lab.Map.{Map, find, insert}
use backtester_lab.Map.Laws.{find-insert}
use backtester_lab.Gateway.Messages.{OrderStatus, OrderRequest, request_fields, is_terminal}
use backtester_lab.Gateway.Types.{
  OrderKey, key_eq, key_beq, key_beq_iff, OrderGatewaySession, OrderSnapshot, Gateway,
}
use backtester_lab.Gateway.Server.{process_request, order_key}
use backtester_lab.Gateway.Server.Fills.{actual_fill_size, filled_snapshot, emit_fill}
use backtester_lab.Gateway.Server.Orders.{
  Accepts, opens, cancels, modifies, key_for, process_request-Answered,
}

-- The remaining size that goes with each status.
abbrev pub Sizes : OrderStatus → ℕ → ℕ → Type 0
Sizes OrderStatus.accepted remaining original = remaining ≡ original
Sizes OrderStatus.partially_filled remaining original = (0 < remaining) × (remaining < original)
Sizes OrderStatus.filled remaining original = remaining ≡ 0
Sizes OrderStatus.cancelled remaining original = (0 < remaining) × (remaining ≤ original)
Sizes _ remaining original = ⊥

pub record IsOrder (k : OrderKey) (o : OrderSnapshot) : Type 0 where
  pub engine : o.trading_engine_id ≡ k.trading_engine_id
  pub identified : o.order_id ≡ k.order_id
  pub instrument : o.instrument_id ≢ 0
  pub sided : has_valid_side o.side ≡ true
  pub priced : is_defined_price o.price ≡ true
  pub positive : 0 < o.original_size
  pub sizes : Sizes o.status o.remaining_size o.original_size

abbrev pub AllOrders : Map OrderKey OrderSnapshot → Type 0
AllOrders orders = (k : OrderKey) (o : OrderSnapshot) → find k orders ≡ some o → IsOrder k o

insert-AllOrders :
    (k : OrderKey) (o : OrderSnapshot) (orders : Map OrderKey OrderSnapshot)
    → AllOrders orders
    → IsOrder k o
    → AllOrders (insert k o orders)
insert-AllOrders k o orders old new j p h = elim (Bool-cases (key_beq k j)) [
  | inl same ↦
      let e : o ≡ p = ground (arith, find-insert j k o orders) in
      subst (λ x. IsOrder j x) e (subst (λ i. IsOrder i o) ((key_beq_iff k j).0 same) new)
  | inr other ↦ old j p (ground (arith, find-insert j k o orders))
]

-- An open order has something left.
open-sizes :
    (s : OrderStatus) (remaining original : ℕ)
    → Sizes s remaining original
    → is_terminal s ≡ false
    → 0 < original
    → (0 < remaining) × (remaining ≤ original)
unfolding is_terminal
open-sizes s remaining original h active positive = ground arith

Accepts-IsOrder :
    (session : OrderGatewaySession) {request : OrderRequest} {old : Option OrderSnapshot}
    {o : OrderSnapshot}
    → Accepts session request old o
    → ((p : OrderSnapshot) → old ≡ some p → IsOrder (key_for session request) p)
    → IsOrder (key_for session request) o
unfolding request_fields
Accepts-IsOrder session (opens f instrument side price size) stored = record {
  engine = refl;
  identified = refl;
  instrument = instrument;
  sided = side;
  priced = price;
  positive = omega arith;
  sizes = refl;
}
Accepts-IsOrder session (cancels f p active) stored =
    let v = stored p refl in
    record {
      engine = v.engine;
      identified = v.identified;
      instrument = v.instrument;
      sided = v.sided;
      priced = v.priced;
      positive = v.positive;
      sizes = open-sizes p.status p.remaining_size p.original_size v.sizes active v.positive;
    }
Accepts-IsOrder session (modifies f p active side price size) stored =
    let v = stored p refl in
    record {
      engine = v.engine;
      identified = v.identified;
      instrument = v.instrument;
      sided = side;
      priced = price;
      positive = omega arith;
      sizes = refl;
    }

-- Every request keeps the stored orders valid.
pub process_request-AllOrders :
    (session : OrderGatewaySession) (request : OrderRequest) (g : Gateway)
    → AllOrders g.orders_by_key
    → AllOrders (process_request session request g).1.orders_by_key
process_request-AllOrders session request g v = elim (process_request-Answered session request g) [
  | inl (_, same, _) ↦ subst AllOrders (sym same) v
  | inr (o, _, _, stored, accepted) ↦ subst AllOrders (sym stored) (
      insert-AllOrders _ o g.orders_by_key v
        (Accepts-IsOrder session accepted (λ p found. v _ p found)))
]

filled-IsOrder :
    (k : OrderKey) (n : ℕ) (timestamp : ℤ) (o : OrderSnapshot)
    → IsOrder k o
    → is_terminal o.status ≡ false
    → n ≢ 0
    → IsOrder k (filled_snapshot n timestamp o)
unfolding actual_fill_size
filled-IsOrder k n timestamp o v active positive =
    let left = open-sizes o.status o.remaining_size o.original_size v.sizes active v.positive in
    record {
      engine = v.engine;
      identified = v.identified;
      instrument = v.instrument;
      sided = v.sided;
      priced = v.priced;
      positive = v.positive;
      sizes = ground (arith, left);
    }

-- A fill keeps the stored orders valid too.
pub emit_fill-AllOrders :
    (engine order_id : ℕ) (price : ℤ) (n : ℕ) (timestamp : ℤ) (g : Gateway)
    → AllOrders g.orders_by_key
    → AllOrders (emit_fill engine order_id price n timestamp g).1.orders_by_key
unfolding emit_fill
emit_fill-AllOrders engine order_id price n timestamp g v = elim (Bool-cases (n == 0)) [
  | inl none_asked ↦ rw none_asked v
  | inr asked ↦ elim (Option-cases (find engine g.sessions_by_engine)) [
    | inl no_session ↦ rw (asked, no_session, emit_fill) v
    | inr (session, registered) ↦
        elim (Option-cases (find (order_key engine order_id) g.orders_by_key)) [
          | inl no_order ↦ rw (asked, registered, no_order, emit_fill) v
          | inr (o, found) ↦ elim (Bool-cases (is_terminal o.status)) [
            | inl over ↦ rw (asked, registered, found, over, emit_fill) v
            | inr active ↦
                rw (asked, registered, found, active, emit_fill)
                  (insert-AllOrders (order_key engine order_id) _ g.orders_by_key v (
                    filled-IsOrder _ n timestamp o (v _ o found) active
                      (ground (arith, nat_beq_iff n 0))))
          ]
        ]
  ]
]
