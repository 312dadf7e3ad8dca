-- ===== src/Gateway/Server/Filling.antt =====
-- What `emitFill` does to an order and to the channel of its session.
use backtester_lab.Base.{
  ℕ, ◌+◌, ◌≤◌, ◌-◌, ◌⊎◌, ◌≡◌, refl, ◌≢◌, true, false, none, some, arith, ◌==◌, nat_eq, nat_beq_iff,
  inl, inr, Bool-cases, Option-cases,
}
use backtester_lab.Base.Int.{ℤ}
use backtester_lab.Map.{find, insert}
use backtester_lab.Gateway.Messages.{OrderStatus, OrderEvent, is_terminal}
use backtester_lab.Gateway.Types.{OrderKey, key_eq, OrderGatewaySession, OrderSnapshot, Gateway}
use backtester_lab.Gateway.Server.{push_to, order_key}
use backtester_lab.Gateway.Server.Fills.{actual_fill_size, filled_snapshot, fill_order, emit_fill}
use backtester_lab.Gateway.Server.Events.{Sends, push_to-Sends}

-- What a fill does to an open order of a session: the size and status of the stored order, the
-- event, and everything that stays.
pub record Fills (session : OrderGatewaySession) (k : OrderKey) (price : ℤ) (n : ℕ) (timestamp : ℤ)
    (o : OrderSnapshot) (before after : Gateway) : Type 0 where
  pub left : ℕ
  pub actual : ℕ
  pub status : OrderStatus
  pub conserved : left + actual ≡ o.remaining_size
  pub bounded : actual ≤ n
  pub least : (actual ≡ n) ⊎ (left ≡ 0)
  pub closed : (left ≡ 0) → status ≡ OrderStatus.filled
  pub partly : (left ≢ 0) → status ≡ OrderStatus.partially_filled
  pub stored :
      after.orders_by_key
      ≡ insert k
          (record o { remaining_size = left; status = status; last_timestamp_ns = timestamp })
          before.orders_by_key
  pub sent :
      Sends session.channel
        (OrderEvent.order_fill
          (record {
            trading_engine_id = o.trading_engine_id;
            order_id = o.order_id;
            instrument_id = o.instrument_id;
            side = o.side;
            price = o.price;
            size = o.original_size;
            timestamp_ns = timestamp;
            status = status;
          })
          price
          actual
          left)
        before.channels
        after.channels
  pub kept :
      (after.sessions_by_engine ≡ before.sessions_by_engine)
      × (after.engine_order ≡ before.engine_order)

-- No fill is possible: no size is asked for, the engine is not registered, or it has no such order, or
-- the order is over.
abbrev pub CannotFill : ℕ → ℕ → ℕ → Gateway → Type 0
CannotFill engine order_id n g =
    (n ≡ 0)
    ⊎ ((find engine g.sessions_by_engine ≡ none)
        ⊎ ((find (order_key engine order_id) g.orders_by_key ≡ none)
            ⊎ ((o : OrderSnapshot) × (find (order_key engine order_id) g.orders_by_key ≡ some o)
                × (is_terminal o.status ≡ true))))

fill_order-Fills :
    (session : OrderGatewaySession) (k : OrderKey) (price : ℤ) (n : ℕ) (timestamp : ℤ)
    (o : OrderSnapshot) (g : Gateway)
    → Fills session k price n timestamp o g (fill_order session k price n timestamp o g)
unfolding fill_order actual_fill_size is_terminal push_to
fill_order-Fills session k price n timestamp o g = record {
  left = o.remaining_size - actual_fill_size n o;
  actual = actual_fill_size n o;
  status = (filled_snapshot n timestamp o).status;
  conserved = ground arith;
  bounded = ground arith;
  least = ground arith;
  closed = λ none_left. rw none_left refl;
  partly = λ some_left. ground (arith, nat_beq_iff (o.remaining_size - actual_fill_size n o) 0);
  stored = refl;
  sent =
      push_to-Sends session.channel _
        (record g { orders_by_key = insert k (filled_snapshot n timestamp o) g.orders_by_key });
  kept = (refl, refl);
}

-- A fill is refused, and changes nothing, exactly if its size is 0, its engine is not registered, or
-- the engine has no such order or it is over. Every other fill takes the smaller of its size and the
-- remaining one off the order, closes the order exactly if nothing is left, keeps the order's other
-- fields, and pushes one event with the size taken and the size left.
pub emit_fill-Fills :
    (engine order_id : ℕ) (price : ℤ) (n : ℕ) (timestamp : ℤ) (g : Gateway)
    → (let r = emit_fill engine order_id price n timestamp g in
        ((r.0 ≡ false) × (r.1 ≡ g) × CannotFill engine order_id n g)
        ⊎ ((session : OrderGatewaySession) × (o : OrderSnapshot) × (n ≢ 0)
            × (r.0 ≡ true)
            × (find engine g.sessions_by_engine ≡ some session)
            × (find (order_key engine order_id) g.orders_by_key ≡ some o)
            × (is_terminal o.status ≡ false)
            × Fills session (order_key engine order_id) price n timestamp o g r.1))
unfolding emit_fill
emit_fill-Fills engine order_id price n timestamp g = elim (Bool-cases (n == 0)) [
  | inl none_asked ↦ rw none_asked (inl (refl, refl, inl ((nat_beq_iff n 0).0 none_asked)))
  | inr asked ↦ elim (Option-cases (find engine g.sessions_by_engine)) [
    | inl no_session ↦ rw (asked, no_session, emit_fill) (inl (refl, refl, inr (inl refl)))
    | inr (session, registered) ↦
        elim (Option-cases (find (order_key engine order_id) g.orders_by_key)) [
          | inl no_order ↦
              rw (asked, registered, no_order, emit_fill) (inl (refl, refl, inr (inr (inl refl))))
          | inr (o, found) ↦ elim (Bool-cases (is_terminal o.status)) [
            | inl over ↦
                rw (asked, registered, found, over, emit_fill)
                  (inl (refl, refl, inr (inr (inr (o, refl, over)))))
            | inr active ↦
                rw (asked, emit_fill)
                  (inr (
                    session,
                    o,
                    ground (arith, nat_beq_iff n 0),
                    rw (registered, found, active) refl,
                    registered,
                    found,
                    active,
                    rw (registered, found, active)
                        (fill_order-Fills session (order_key engine order_id) price n timestamp o
                          g),
                  ))
          ]
        ]
  ]
]
