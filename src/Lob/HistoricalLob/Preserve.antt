-- ===== src/Lob/HistoricalLob/Preserve.antt =====
-- The levels of a historical book against its orders, for each event.
use backtester_lab.Base.{
  ℕ, ◌+◌, ◌-◌, ◌<◌, ◌≤◌, ◌≡◌, refl, true, [], ◌∷◌, none, some, arith, ◌==◌, nat_eq, nat_beq_iff,
  u64_mod, Bool-cases, Option-cases, inl, inr,
}
use backtester_lab.Base.Int.{ℤ}
use backtester_lab.Domain.{Side, Action, MarketDataEvent, has_valid_resting_state}
use backtester_lab.Levels.{volume, find_level}
use backtester_lab.Map.{Map, find, erase, Distinct, sum_by}
use backtester_lab.Map.Laws.{find-erase_self, find-erase_ne, insert-Distinct, erase-Distinct}
use backtester_lab.Map.Sums.{sum_by-erase}
use backtester_lab.Sides.{Sides, no_levels, volume_on, remove_volume}
use backtester_lab.Sides.Aggregate.{IsSum, IsSum-insert, IsSum-erase, IsSum-shrink, IsSum-replace}
use backtester_lab.Lob.HistoricalLob.{
  HistoricalLob, HistoricalOrder, order_of, remove_order, place_order, apply_add, apply_modify,
  apply_cancel, cancel_quantity, clear_from, apply_clear, dispatch, apply,
}

abbrev pub side_of : HistoricalOrder → Side
side_of o = o.side

abbrev pub price_of : HistoricalOrder → ℤ
price_of o = o.price

abbrev pub quantity_of : HistoricalOrder → ℕ
quantity_of o = o.quantity

pub record IsConsistent (levels : Sides) (orders : Map ℕ HistoricalOrder) : Type 0 where
  pub sums : IsSum side_of price_of quantity_of levels orders
  pub distinct : Distinct orders

abbrev pub IsValidLob : HistoricalLob → Type 0
IsValidLob b = IsConsistent b.levels b.orders_by_id

-- Room for `n` more below 2 ^ 64.
abbrev pub HasRoom : ℕ → HistoricalLob → Type 0
HasRoom n b = sum_by quantity_of b.orders_by_id + n < u64_mod

valid_size : (e : MarketDataEvent) → has_valid_resting_state e ≡ true → 0 < e.size
unfolding has_valid_resting_state
valid_size e ok = ground arith

erase-IsConsistent :
    (k : ℕ) (v : HistoricalOrder) (levels : Sides) (orders : Map ℕ HistoricalOrder)
    → IsConsistent levels orders
    → find k orders ≡ some v
    → IsConsistent (remove_volume v.side v.price v.quantity levels) (erase k orders)
erase-IsConsistent k v levels orders c found = record {
  sums = IsSum-erase side_of price_of quantity_of levels orders k v c.sums found;
  distinct = erase-Distinct k orders c.distinct;
}

remove_order-IsValid :
    (k n : ℕ) (b : HistoricalLob)
    → IsValidLob b
    → HasRoom n b
    → IsValidLob (remove_order k b)
      × HasRoom n (remove_order k b)
      × (find k (remove_order k b).orders_by_id ≡ none)
unfolding remove_order
remove_order-IsValid k n b c room = elim (Option-cases (find k b.orders_by_id)) [
  | inl missing ↦ rw (missing, remove_order) (c, room, missing)
  | inr (v, found) ↦
      rw (found, remove_order)
        (
          erase-IsConsistent k v b.levels b.orders_by_id c found,
          omega (arith, sum_by-erase quantity_of k b.orders_by_id),
          find-erase_self k b.orders_by_id c.distinct,
        )
]

place_order-IsValid :
    (e : MarketDataEvent) (b : HistoricalLob)
    → IsValidLob b
    → 0 < e.size
    → find e.order_id b.orders_by_id ≡ none
    → HasRoom e.size b
    → IsValidLob (place_order e b)
unfolding place_order
place_order-IsValid e b c positive fresh room = record {
  sums =
      IsSum-insert side_of price_of quantity_of b.levels b.orders_by_id e.order_id (order_of e)
        c.sums fresh positive room;
  distinct = insert-Distinct e.order_id (order_of e) b.orders_by_id c.distinct;
}

apply_add-IsValid :
    (e : MarketDataEvent) (b : HistoricalLob)
    → IsValidLob b
    → HasRoom e.size b
    → IsValidLob (apply_add e b)
unfolding apply_add
apply_add-IsValid e b c room = elim (Bool-cases (has_valid_resting_state e)) [
  | inl ok ↦
      let removed = remove_order-IsValid e.order_id e.size b c room in
      rw ok (
        place_order-IsValid e (remove_order e.order_id b) removed.0 (valid_size e ok) removed.2
          removed.1)
  | inr bad ↦ rw bad c
]

apply_modify-IsValid :
    (e : MarketDataEvent) (b : HistoricalLob)
    → IsValidLob b
    → HasRoom e.size b
    → IsValidLob (apply_modify e b)
unfolding apply_modify place_order
apply_modify-IsValid e b c room = elim (Option-cases (find e.order_id b.orders_by_id)) [
  | inl missing ↦ rw (missing, apply_modify) c
  | inr (v, found) ↦ elim (Bool-cases (has_valid_resting_state e)) [
    | inr bad ↦ rw (found, apply_modify, bad) c
    | inl ok ↦
        rw (found, apply_modify, ok)
          (record {
            sums =
                IsSum-replace side_of price_of quantity_of b.levels b.orders_by_id e.order_id v
                  (order_of e) c.sums found (valid_size e ok) room;
            distinct = insert-Distinct e.order_id (order_of e) b.orders_by_id c.distinct;
          })
  ]
]

cancel_quantity-le : (n : ℕ) (v : HistoricalOrder) → cancel_quantity n v ≤ v.quantity
unfolding cancel_quantity
cancel_quantity-le n v = ground arith

apply_cancel-IsValid :
    (e : MarketDataEvent) (b : HistoricalLob) → IsValidLob b → IsValidLob (apply_cancel e b)
unfolding apply_cancel
apply_cancel-IsValid e b c = elim (Option-cases (find e.order_id b.orders_by_id)) [
  | inl missing ↦ rw (missing, apply_cancel) c
  | inr (v, found) ↦
      let n = cancel_quantity e.size v in
      elim (Bool-cases (v.quantity - n == 0)) [
        | inl gone ↦
            let whole : cancel_quantity e.size v ≡ v.quantity =
              ground (arith, cancel_quantity-le e.size v) in
            rw (found, apply_cancel, gone, whole)
              (erase-IsConsistent e.order_id v b.levels b.orders_by_id c found)
        | inr left ↦
            rw (found, apply_cancel, left)
              (record {
                sums =
                    IsSum-shrink side_of price_of quantity_of b.levels b.orders_by_id e.order_id n v
                      (record v { quantity = v.quantity - n }) c.sums found
                      (cancel_quantity-le e.size v) refl refl refl;
                distinct = insert-Distinct e.order_id _ b.orders_by_id c.distinct;
              })
      ]
]

-- The loop of a clear: the orders that it has not reached yet still stand in the book.
clear_from-IsValid :
    (instrument : ℕ) (rest : Map ℕ HistoricalOrder) (b : HistoricalLob)
    → IsValidLob b
    → Distinct rest
    → ((k : ℕ) (o : HistoricalOrder) → find k rest ≡ some o → find k b.orders_by_id ≡ some o)
    → IsValidLob (clear_from instrument rest b)
unfolding clear_from find
clear_from-IsValid instrument [] b c d stands = c
clear_from-IsValid instrument ((k, v) ∷ rest) b c d stands =
    elim (Bool-cases (v.instrument_id == instrument)) [
      | inl matches ↦
          let found : find k b.orders_by_id ≡ some v =
            stands k v (ground (arith, nat_beq_iff k k)) in
          rw (matches, clear_from)
            (clear_from-IsValid instrument rest _
              (erase-IsConsistent k v b.levels b.orders_by_id c found) d.1
              (λ j o h.
                ground (arith, nat_beq_iff k j, stands j o, d.0, find-erase_ne j k b.orders_by_id)))
      | inr other ↦
          rw (other, clear_from)
            (clear_from-IsValid instrument rest b c d.1
              (λ j o h. ground (arith, nat_beq_iff k j, stands j o, d.0)))
    ]

pub empty-IsConsistent : IsConsistent no_levels []
unfolding volume_on volume find_level sum_by find
empty-IsConsistent = record {
  sums = record { ladders = record { bids = tt; asks = tt }; volumes = λ t p. ground arith };
  distinct = tt;
}

apply_clear-IsValid :
    (e : MarketDataEvent) (b : HistoricalLob) → IsValidLob b → IsValidLob (apply_clear e b)
unfolding apply_clear
apply_clear-IsValid e b c = elim (Bool-cases (e.instrument_id == 0)) [
  | inl all ↦ rw all empty-IsConsistent
  | inr one ↦ rw one (clear_from-IsValid e.instrument_id b.orders_by_id b c c.distinct (λ k o h. h))
]

-- Every event keeps the volume at each side and price the sum of the orders that rest there, and
-- both price maps in order, while the sizes that rest and the event's size stay below 2 ^ 64.
pub apply-IsValidLob :
    (e : MarketDataEvent) (b : HistoricalLob)
    → IsValidLob b
    → HasRoom e.size b
    → IsValidLob (apply e b)
unfolding apply
apply-IsValidLob e b c room = elim (Bool-cases (e.instrument_id == 0)) [
  | inl none_stated ↦ rw none_stated (dispatched b c room e.action)
  | inr stated ↦
      rw stated (dispatched (record b { instrument_id = e.instrument_id }) c room e.action)
]
  where
    dispatched :
        (b : HistoricalLob)
        → IsValidLob b
        → HasRoom e.size b
        → (a : Action) → IsValidLob (dispatch a e b)
    dispatched b c room Action.add = unfold dispatch in apply_add-IsValid e b c room
    dispatched b c room Action.modify = unfold dispatch in apply_modify-IsValid e b c room
    dispatched b c room Action.cancel = unfold dispatch in apply_cancel-IsValid e b c
    dispatched b c room Action.clear = unfold dispatch in apply_clear-IsValid e b c
    dispatched b c room Action.trade = unfold dispatch in c
    dispatched b c room Action.fill = unfold dispatch in c
    dispatched b c room Action.none = unfold dispatch in c
