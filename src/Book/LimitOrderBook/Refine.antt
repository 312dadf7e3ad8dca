-- ===== src/Book/LimitOrderBook/Refine.antt =====
-- A book against the abstract steps of `Steps`, and the sizes that rest.
use Prim.Native.String.{String}
use backtester_lab.Base.{
  ℕ, ◌+◌, ◌-◌, ◌≤◌, ◌∙◌, ap, ◌≡◌, refl, arith, ◌==◌, nat_eq, nat_beq_iff, if◌then◌else◌, Bool-cases,
  Option-cases, inl, inr,
}
use backtester_lab.Domain.{Action, MarketDataEvent, has_valid_resting_state}
use backtester_lab.Map.{Map, find, erase, Distinct, sum_by}
use backtester_lab.Map.Laws.{find-insert, find-erase}
use backtester_lab.Map.Sums.{sum_by-insert, sum_by-erase}
use backtester_lab.Book.LimitOrderBook.{
  LimitOrderBook, RestingOrder, order_of, record_unknown_order_diagnostic, remove_order,
  place_order, apply_add, apply_cancel, apply_modify, apply_clear, apply_trade, apply_fill,
  dispatch, apply,
}
use backtester_lab.Book.LimitOrderBook.Invariant.{size_of, total}
use backtester_lab.Book.LimitOrderBook.Preserve.{record_unknown-keeps}
use backtester_lab.Book.LimitOrderBook.Steps.{Lookup, upsert, reduce, step_on, step}

-- The lookups of a book.
abbrev pub lookups : Map ℕ RestingOrder → Lookup
lookups orders k = find k orders

find-apply_add :
    (e : MarketDataEvent) (b : LimitOrderBook) (k : ℕ)
    → Distinct b.orders
    → find k (apply_add e b).orders ≡ upsert e (lookups b.orders) k
unfolding apply_add upsert remove_order place_order
find-apply_add e b k d = ground (
  arith,
  nat_beq_iff e.order_id k,
  find-insert k e.order_id (order_of e) (erase e.order_id b.orders),
  find-insert k e.order_id (order_of e) b.orders,
  find-erase k e.order_id b.orders d,
)

orders-record_unknown :
    (e : MarketDataEvent) (operation decision : String) (b : LimitOrderBook)
    → (record_unknown_order_diagnostic e operation decision b).orders ≡ b.orders
orders-record_unknown e operation decision b =
    record_unknown-keeps (λ l o. o ≡ b.orders) e operation decision b refl

find-apply_modify :
    (e : MarketDataEvent) (b : LimitOrderBook) (k : ℕ)
    → Distinct b.orders
    → find k (apply_modify e b).orders ≡ upsert e (lookups b.orders) k
unfolding apply_modify place_order
find-apply_modify e b k d = elim (Option-cases (find e.order_id b.orders)) [
  | inl missing ↦ elim (Bool-cases (has_valid_resting_state e)) [
    | inl ok ↦
        rw (missing, apply_modify, ok)
          (find-apply_add e _ k (record_unknown-keeps (λ l o. Distinct o) e _ _ _ d)
            ∙ ap (λ o. upsert e (lookups o) k)
                (orders-record_unknown e "modify" "recovered_as_add" _))
    | inr bad ↦
        rw (missing, apply_modify, bad)
          (ap (find k) {y = b.orders} (orders-record_unknown e "modify" "skipped" _)
            ∙ unfold upsert in ground arith)
  ]
  | inr (v, found) ↦ unfold upsert in ground (arith, find-insert k e.order_id (order_of e) b.orders)
]

find-apply_cancel :
    (e : MarketDataEvent) (b : LimitOrderBook) (k : ℕ)
    → Distinct b.orders
    → find k (apply_cancel e b).orders
      ≡ (if e.order_id == k then reduce e (find k b.orders) else find k b.orders)
unfolding apply_cancel reduce
find-apply_cancel e b k d = elim (Option-cases (find e.order_id b.orders)) [
  | inl missing ↦
      rw (missing, apply_cancel)
        (ap (find k) {y = b.orders} (orders-record_unknown e "cancel" "skipped" _)
          ∙ ground (arith, nat_beq_iff e.order_id k))
  | inr (v, found) ↦ ground (
    arith,
    nat_beq_iff e.order_id k,
    find-insert k e.order_id (record v { size = v.size - e.size }) b.orders,
    find-erase k e.order_id b.orders d,
  )
]

-- The lookups of the book after an event are those of the abstract step, if no order id stands
-- twice in the book.
pub find-apply :
    (e : MarketDataEvent) (b : LimitOrderBook) (k : ℕ)
    → Distinct b.orders
    → find k (apply e b).orders ≡ step e (lookups b.orders) k
unfolding apply step apply_clear apply_trade apply_fill
find-apply e b k d = dispatched e.action
  where
    dispatched : (a : Action) → find k (dispatch a e b).orders ≡ step_on a e (lookups b.orders) k
    dispatched Action.add = find-apply_add e b k d
    dispatched Action.modify = find-apply_modify e b k d
    dispatched Action.cancel = find-apply_cancel e b k d
    dispatched Action.clear = unfold find in refl
    dispatched Action.trade = refl
    dispatched Action.fill = refl
    dispatched Action.none = refl

total-apply_add :
    (e : MarketDataEvent) (b : LimitOrderBook)
    → total (apply_add e b).orders ≤ total b.orders + e.size
unfolding total apply_add remove_order place_order
total-apply_add e b = ground (
  arith,
  sum_by-erase size_of e.order_id b.orders,
  sum_by-insert size_of e.order_id (order_of e) (erase e.order_id b.orders),
  sum_by-insert size_of e.order_id (order_of e) b.orders,
)

total-apply_modify :
    (e : MarketDataEvent) (b : LimitOrderBook)
    → total (apply_modify e b).orders ≤ total b.orders + e.size
unfolding apply_modify
total-apply_modify e b = elim (Option-cases (find e.order_id b.orders)) [
  | inl missing ↦ elim (Bool-cases (has_valid_resting_state e)) [
    | inl ok ↦
        rw (missing, apply_modify, ok)
          (omega (
            arith,
            total-apply_add e _,
            ap total (orders-record_unknown e "modify" "recovered_as_add" _),
          ))
    | inr bad ↦
        rw (missing, apply_modify, bad)
          (omega (arith, ap total (orders-record_unknown e "modify" "skipped" _)))
  ]
  | inr (v, found) ↦
      unfold total place_order in
      ground (arith, sum_by-insert size_of e.order_id (order_of e) b.orders)
]

total-apply_cancel :
    (e : MarketDataEvent) (b : LimitOrderBook) → total (apply_cancel e b).orders ≤ total b.orders
unfolding apply_cancel
total-apply_cancel e b = elim (Option-cases (find e.order_id b.orders)) [
  | inl missing ↦
      rw (missing, apply_cancel)
        (omega (arith, ap total (orders-record_unknown e "cancel" "skipped" _)))
  | inr (v, found) ↦
      unfold total in
      ground (
        arith,
        sum_by-erase size_of e.order_id b.orders,
        sum_by-insert size_of e.order_id (record v { size = v.size - e.size }) b.orders,
      )
]

-- No event adds more than its own size.
pub total-apply :
    (e : MarketDataEvent) (b : LimitOrderBook) → total (apply e b).orders ≤ total b.orders + e.size
unfolding apply apply_clear apply_trade apply_fill
total-apply e b = dispatched e.action
  where
    dispatched : (a : Action) → total (dispatch a e b).orders ≤ total b.orders + e.size
    dispatched Action.add = total-apply_add e b
    dispatched Action.modify = total-apply_modify e b
    dispatched Action.cancel = omega (arith, total-apply_cancel e b)
    dispatched Action.clear = unfold total sum_by in omega arith
    dispatched Action.trade = omega arith
    dispatched Action.fill = omega arith
    dispatched Action.none = omega arith
