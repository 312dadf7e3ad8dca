-- ===== src/Backtest/OrderExecutionBridge/Mappings.antt =====
-- src/backtest/OrderExecutionBridge.cpp: the mappings against the orders that rest in the views.
use backtester_lab.Base.{
  ℕ, ◌≡◌, refl, ◌&&◌, none, some, arith, if◌then◌else◌, ◌==◌, nat_eq, nat_beq_iff, ltb, Bool-cases,
  Option-cases, inl, inr,
}
use backtester_lab.Map.{find, insert, Distinct}
use backtester_lab.Map.Laws.{find-insert_self, find-erase}
use backtester_lab.Gateway.Types.{OrderKey, key_eq, OrderGatewayTransition}
use backtester_lab.Lob.EngineView.{EngineView, cancel_synthetic_order}
use backtester_lab.Lob.Historical.{books}
use backtester_lab.Lob.FillSimulator.{SimulatedOrderResult}
use backtester_lab.Lob.FillSimulator.Submit.{IsOutcome}
use backtester_lab.Backtest.OrderExecutionBridge.{
  OrderExecutionBridge, OrderExecutionBridgeResult, ExecutionOrderMapping, mapping_key, mapping_of,
  request_of, erase_mapping, process_cancel_accepted,
}

-- The key of a transition's order.
abbrev pub key_of : OrderGatewayTransition → OrderKey
key_of t = record { trading_engine_id = t.fields.trading_engine_id; order_id = t.fields.order_id }

-- An accepted order of a bridge, after its submission: the simulator's outcome stands in the engine's
-- view, and the order has a mapping exactly if something of it rests.
pub record IsSubmitted (t : OrderGatewayTransition) (view : EngineView)
    (b b' : OrderExecutionBridge) : Type 0 where
  pub simulated : SimulatedOrderResult
  pub after : EngineView
  pub outcome : IsOutcome (books b.historical_lobs) (request_of t) view simulated after
  pub views : b'.engine_views ≡ insert t.fields.trading_engine_id after b.engine_views
  pub mappings :
      (j : OrderKey)
      → find j b'.mappings ≡ (
          if (key_of t == j) && ltb 0 simulated.remaining_size
          then some (mapping_of t simulated)
          else find j b.mappings)
  pub lobs : b'.historical_lobs ≡ b.historical_lobs

-- A cancelled synthetic order is no order of the view, and the others stay.
own_orders-cancel :
    (id k : ℕ) (view : EngineView)
    → Distinct view.own_orders
    → find k (cancel_synthetic_order id view).own_orders
      ≡ (if id == k then none else find k view.own_orders)
unfolding cancel_synthetic_order
own_orders-cancel id k view distinct = elim (Option-cases (find id view.own_orders)) [
  | inl missing ↦
      rw (missing, cancel_synthetic_order)
        (elim (Bool-cases (id == k)) [
          | inl same ↦ ground (arith, same, missing, nat_beq_iff id k)
          | inr other ↦ rw other refl
        ])
  | inr (order, found) ↦
      rw (found, cancel_synthetic_order) (find-erase k id view.own_orders distinct)
]

-- A cancelled order with a mapping loses it, and the synthetic order that the mapping named leaves the
-- engine's view; all other mappings and all other orders of the view stay. No key stands twice in
-- the mappings, and no id twice in the view.
pub cancel-erased :
    (t : OrderGatewayTransition) (result : OrderExecutionBridgeResult) (b : OrderExecutionBridge)
    (mapping : ExecutionOrderMapping) (view : EngineView)
    → Distinct b.mappings
    → Distinct view.own_orders
    → find (key_of t) b.mappings ≡ some mapping
    → find t.fields.trading_engine_id b.engine_views ≡ some view
    → let b' = (process_cancel_accepted t (result, b)).1 in
      ((j : OrderKey) → find j b'.mappings ≡ (if key_of t == j then none else find j b.mappings))
      × (after : EngineView) × (find t.fields.trading_engine_id b'.engine_views ≡ some after)
      × ((k : ℕ)
          → find k after.own_orders
            ≡ (if mapping.synthetic_order_id == k then none else find k view.own_orders))
unfolding process_cancel_accepted mapping_key erase_mapping
cancel-erased t result b mapping view distinct own mapped found =
    let after : EngineView = cancel_synthetic_order mapping.synthetic_order_id view in
    rw (mapped, found, erase_mapping)
      (
        (λ j. find-erase j (key_of t) b.mappings distinct),
        after,
        find-insert_self t.fields.trading_engine_id after b.engine_views,
        (λ k. own_orders-cancel mapping.synthetic_order_id k view own),
      )
