-- ===== src/Book/BookManager/Contains.antt =====
-- Which orders a book contains after an event. This needs no bound on sizes.
use backtester_lab.Base.{
  ℕ, ◌≡◌, refl, ◌≢◌, Bool, false, ◌&&◌, ◌||◌, none, arith, ◌==◌, nat_eq, nat_beq_iff, ◌∙◌, ◌-◌,
  Option-cases, Bool-cases, inl, inr,
}
use backtester_lab.Domain.{Action, MarketDataEvent, has_valid_resting_state}
use backtester_lab.Map.{find, contains, erase, Distinct}
use backtester_lab.Map.Laws.{insert-Distinct, erase-Distinct}
use backtester_lab.Book.LimitOrderBook.{
  LimitOrderBook, order_of, new_book, remove_order, place_order, apply_add, apply_cancel,
  apply_modify, apply_clear, apply_trade, apply_fill, dispatch, apply, contains_order,
}
use backtester_lab.Book.LimitOrderBook.Preserve.{record_unknown-keeps}
use backtester_lab.Book.LimitOrderBook.Refine.{lookups, find-apply}
use backtester_lab.Book.LimitOrderBook.Steps.{step, step_on, reduce}

-- Order ids are distinct, and id 0 never rests.
pub record IsKeyed (b : LimitOrderBook) : Type 0 where
  pub distinct : Distinct b.orders
  pub no_zero : find 0 b.orders ≡ none

Distinct-apply_add :
    (e : MarketDataEvent) (b : LimitOrderBook) → Distinct b.orders → Distinct (apply_add e b).orders
unfolding apply_add remove_order place_order
Distinct-apply_add e b d = ground (
  arith,
  insert-Distinct e.order_id (order_of e) b.orders,
  insert-Distinct e.order_id (order_of e) (erase e.order_id b.orders),
  erase-Distinct e.order_id b.orders,
)

Distinct-apply_modify :
    (e : MarketDataEvent) (b : LimitOrderBook)
    → Distinct b.orders
    → Distinct (apply_modify e b).orders
unfolding apply_modify place_order
Distinct-apply_modify e b d = elim (Option-cases (find e.order_id b.orders)) [
  | inl missing ↦ elim (Bool-cases (has_valid_resting_state e)) [
    | inl ok ↦
        rw (missing, apply_modify, ok)
          (Distinct-apply_add e _ (record_unknown-keeps (λ l o. Distinct o) e _ _ _ d))
    | inr bad ↦ rw (missing, apply_modify, bad) (record_unknown-keeps (λ l o. Distinct o) e _ _ _ d)
  ]
  | inr (v, found) ↦ ground (arith, insert-Distinct e.order_id (order_of e) b.orders)
]

Distinct-apply_cancel :
    (e : MarketDataEvent) (b : LimitOrderBook)
    → Distinct b.orders
    → Distinct (apply_cancel e b).orders
unfolding apply_cancel
Distinct-apply_cancel e b d = elim (Option-cases (find e.order_id b.orders)) [
  | inl missing ↦ rw (missing, apply_cancel) (record_unknown-keeps (λ l o. Distinct o) e _ _ _ d)
  | inr (v, found) ↦ ground (
    arith,
    insert-Distinct e.order_id (record v { size = v.size - e.size }) b.orders,
    erase-Distinct e.order_id b.orders,
  )
]

Distinct-apply :
    (e : MarketDataEvent) (b : LimitOrderBook) → Distinct b.orders → Distinct (apply e b).orders
unfolding apply apply_clear apply_trade apply_fill
Distinct-apply e b d = dispatched e.action
  where
    dispatched : (a : Action) → Distinct (dispatch a e b).orders
    dispatched Action.add = Distinct-apply_add e b d
    dispatched Action.modify = Distinct-apply_modify e b d
    dispatched Action.cancel = Distinct-apply_cancel e b d
    dispatched Action.clear = tt
    dispatched Action.trade = d
    dispatched Action.fill = d
    dispatched Action.none = d

step-zero :
    (a : Action) (e : MarketDataEvent) (b : LimitOrderBook)
    → find 0 b.orders ≡ none
    → step_on a e (lookups b.orders) 0 ≡ none
unfolding step_on reduce has_valid_resting_state
step-zero a e b h = ground (arith, nat_beq_iff e.order_id 0)

pub apply-IsKeyed : (e : MarketDataEvent) (b : LimitOrderBook) → IsKeyed b → IsKeyed (apply e b)
unfolding step
apply-IsKeyed e b v = record {
  distinct = Distinct-apply e b v.distinct;
  no_zero = find-apply e b 0 v.distinct ∙ step-zero e.action e b v.no_zero;
}

pub new_book-IsKeyed : (i : ℕ) → IsKeyed (new_book i)
unfolding new_book find
new_book-IsKeyed i = record { distinct = tt; no_zero = refl }

-- What an event does to the set of resting ids.
unfoldable pub kept : Action → MarketDataEvent → LimitOrderBook → ℕ → Bool
kept Action.add e b o = (has_valid_resting_state e && (e.order_id == o)) || contains_order o b
kept Action.modify e b o = (has_valid_resting_state e && (e.order_id == o)) || contains_order o b
kept Action.cancel e b o = contains_order o b && contains_order o (apply e b)
kept Action.clear e b o = false
kept _ e b o = contains_order o b

pub contains-apply :
    (a : Action) (e : MarketDataEvent) (b : LimitOrderBook) (o : ℕ)
    → e.action ≡ a
    → Distinct b.orders
    → contains_order o (apply e b) ≡ kept a e b o
unfolding kept contains_order contains step step_on
contains-apply Action.add e b o h d = ground (arith, find-apply e b o d)
contains-apply Action.modify e b o h d = ground (arith, find-apply e b o d)
contains-apply Action.cancel e b o h d = ground (arith, find-apply e b o d)
contains-apply Action.clear e b o h d = ground (arith, find-apply e b o d)
contains-apply a e b o h d = ground (arith, find-apply e b o d)

-- A cancel of size 0 takes the order out, and a cancel leaves the other orders.
pub contains-cancel :
    (e : MarketDataEvent) (b : LimitOrderBook) (o : ℕ)
    → e.action ≡ Action.cancel
    → Distinct b.orders
    → (e.order_id ≢ o → contains_order o (apply e b) ≡ contains_order o b)
      × (e.order_id ≡ o → e.size ≡ 0 → contains_order o (apply e b) ≡ false)
unfolding contains_order contains step step_on reduce
contains-cancel e b o h d = (
  λ other. ground (arith, find-apply e b o d, nat_beq_iff e.order_id o),
  λ same zero. ground (arith, find-apply e b o d, nat_beq_iff e.order_id o),
)
