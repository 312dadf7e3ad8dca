-- ===== src/Book/LimitOrderBook/Preserve.antt =====
-- The invariant of a book, for each event.
use Prim.Native.String.{String}
use backtester_lab.Base.{
  ℕ, ◌+◌, ◌-◌, ◌<◌, ◌≤◌, ◌≡◌, refl, true, [], none, some, arith, ◌==◌, nat_eq, leb, length, min,
  u64_mod, if◌then◌else◌, Bool-cases, Option-cases, inl, inr,
}
use backtester_lab.Domain.{Action, MarketDataEvent, has_valid_resting_state}
use backtester_lab.Map.{Map, find, insert, sum_by}
use backtester_lab.Map.Laws.{find-erase_self}
use backtester_lab.Map.Sums.{sum_by-erase}
use backtester_lab.Sides.{Sides, volume_on, remove_volume, no_levels}
use backtester_lab.Sides.Aggregate.{IsSum-insert, IsSum-shrink, IsSum-replace}
use backtester_lab.Book.LimitOrderBook.{
  LimitOrderBook, RestingOrder, order_of, remove_level_volume, record_unknown_order_diagnostic,
  remove_order, place_order, apply_add, apply_cancel, apply_modify, apply_clear, apply_trade,
  apply_fill, dispatch, apply,
}
use backtester_lab.Levels.{volume, find_level}
use backtester_lab.Book.LimitOrderBook.Invariant.{
  side_of, price_of, size_of, total, IsResting, IsConsistent, valid_order, insert-IsConsistent,
  erase-IsConsistent,
}

-- A book whose invariant holds, with room for `n` more.
abbrev pub HasRoom : ℕ → LimitOrderBook → Type 0
HasRoom n b = total b.orders + n < u64_mod

abbrev pub IsValid : LimitOrderBook → Type 0
IsValid b = IsConsistent b.levels b.orders

remove_order-IsValid :
    (k n : ℕ) (b : LimitOrderBook)
    → IsValid b
    → HasRoom n b
    → IsValid (remove_order k b)
      × HasRoom n (remove_order k b)
      × (find k (remove_order k b).orders ≡ none)
unfolding remove_order total
remove_order-IsValid k n b c room = elim (Option-cases (find k b.orders)) [
  | inl missing ↦ rw (missing, remove_order) (c, room, missing)
  | inr (v, found) ↦
      rw (found, remove_order)
        (
          erase-IsConsistent k v b.levels b.orders c found,
          omega (arith, sum_by-erase size_of k b.orders),
          find-erase_self k b.orders c.distinct,
        )
]

place_order-IsValid :
    (e : MarketDataEvent) (b : LimitOrderBook)
    → IsValid b
    → has_valid_resting_state e ≡ true
    → find e.order_id b.orders ≡ none
    → HasRoom e.size b
    → IsValid (place_order e b)
unfolding place_order total
place_order-IsValid e b c ok fresh room =
    insert-IsConsistent e.order_id (order_of e) b.levels _ b.orders c new (
      IsSum-insert side_of price_of size_of b.levels b.orders e.order_id (order_of e) c.sums fresh
        new.positive room)
  where
    new : IsResting e.order_id (order_of e)
    new = valid_order e ok

replace_order-IsValid :
    (e : MarketDataEvent) (b : LimitOrderBook) (v : RestingOrder)
    → IsValid b
    → has_valid_resting_state e ≡ true
    → find e.order_id b.orders ≡ some v
    → HasRoom e.size b
    → IsValid (place_order e (remove_level_volume v.side v.price v.size b))
unfolding place_order total remove_level_volume
replace_order-IsValid e b v c ok found room =
    insert-IsConsistent e.order_id (order_of e) b.levels _ b.orders c new (
      IsSum-replace side_of price_of size_of b.levels b.orders e.order_id v (order_of e) c.sums
        found new.positive room)
  where
    new : IsResting e.order_id (order_of e)
    new = valid_order e ok

pub apply_add-IsValid :
    (e : MarketDataEvent) (b : LimitOrderBook)
    → IsValid b
    → HasRoom e.size b
    → IsValid (apply_add e b)
unfolding apply_add
apply_add-IsValid e b c room = elim (Bool-cases (has_valid_resting_state e)) [
  | inl ok ↦
      let removed = remove_order-IsValid e.order_id e.size b c room in
      rw ok (place_order-IsValid e (remove_order e.order_id b) removed.0 ok removed.2 removed.1)
  | inr bad ↦ rw bad c
]

-- A diagnostic changes neither the levels nor the orders.
pub record_unknown-keeps {ℓ} :
    (P : Sides → Map ℕ RestingOrder → Type ℓ) (e : MarketDataEvent) (operation decision : String)
    (b : LimitOrderBook)
    → P b.levels b.orders
    → P
        (record_unknown_order_diagnostic e operation decision b).levels
        (record_unknown_order_diagnostic e operation decision b).orders
unfolding record_unknown_order_diagnostic
record_unknown-keeps P e operation decision b h =
    elim (Bool-cases (leb 32 (length b.unknown_order_diagnostics))) [
      | inl full ↦ rw full h
      | inr room ↦ rw room h
    ]

pub apply_modify-IsValid :
    (e : MarketDataEvent) (b : LimitOrderBook)
    → IsValid b
    → HasRoom e.size b
    → IsValid (apply_modify e b)
unfolding apply_modify
apply_modify-IsValid e b c room = elim (Option-cases (find e.order_id b.orders)) [
  | inl missing ↦ elim (Bool-cases (has_valid_resting_state e)) [
    | inl ok ↦
        rw (missing, apply_modify, ok)
          (apply_add-IsValid e _ (record_unknown-keeps IsConsistent e _ _ _ c)
            (record_unknown-keeps (λ l o. total o + e.size < u64_mod) e _ _ _ room))
    | inr bad ↦ rw (missing, apply_modify, bad) (record_unknown-keeps IsConsistent e _ _ _ c)
  ]
  | inr (v, found) ↦ elim (Bool-cases (has_valid_resting_state e)) [
    | inl ok ↦ rw (found, apply_modify, ok) (replace_order-IsValid e b v c ok found room)
    | inr bad ↦ rw (found, apply_modify, bad) c
  ]
]

-- The size that a cancel takes off an order.
cancelled : MarketDataEvent → RestingOrder → ℕ
cancelled e v = if e.size == 0 then v.size else min e.size v.size

cancelled-le : (e : MarketDataEvent) (v : RestingOrder) → cancelled e v ≤ v.size
unfolding cancelled
cancelled-le e v = ground arith

shrink-IsConsistent :
    (k n : ℕ) (v : RestingOrder) (levels : Sides) (orders : Map ℕ RestingOrder)
    → IsConsistent levels orders
    → find k orders ≡ some v
    → n < v.size
    → IsConsistent
        (remove_volume v.side v.price n levels)
        (insert k (record v { size = v.size - n }) orders)
shrink-IsConsistent k n v levels orders c found lt =
    insert-IsConsistent k w levels _ orders c
      (record { identified = old.identified; positive = omega arith; sided = old.sided })
      (IsSum-shrink side_of price_of size_of levels orders k n v w c.sums found (omega arith) refl
        refl refl)
  where
    old : IsResting k v
    old = c.resting k v found

    w : RestingOrder
    w = record v { size = v.size - n }

pub apply_cancel-IsValid :
    (e : MarketDataEvent) (b : LimitOrderBook) → IsValid b → IsValid (apply_cancel e b)
unfolding apply_cancel cancelled
apply_cancel-IsValid e b c = elim (Option-cases (find e.order_id b.orders)) [
  | inl missing ↦ rw (missing, apply_cancel) (record_unknown-keeps IsConsistent e _ _ _ c)
  | inr (v, found) ↦ elim (Bool-cases (v.size - cancelled e v == 0)) [
    | inl gone ↦
        let whole : cancelled e v ≡ v.size = ground (arith, cancelled-le e v) in
        rw (found, apply_cancel, gone, whole)
          (erase-IsConsistent e.order_id v b.levels b.orders c found)
    | inr left ↦
        rw (found, apply_cancel, left)
          (shrink-IsConsistent e.order_id (cancelled e v) v b.levels b.orders c found
            (ground (arith, cancelled-le e v)))
  ]
]

pub new_book-IsConsistent : IsConsistent no_levels []
unfolding volume_on volume find_level sum_by find
new_book-IsConsistent = record {
  sums = record { ladders = record { bids = tt; asks = tt }; volumes = λ t p. ground arith };
  distinct = tt;
  resting = λ k r h. ground arith;
}

-- Every event keeps the invariant, while the sizes that rest and the event's size stay below 2 ^ 64.
pub apply-IsValid :
    (e : MarketDataEvent) (b : LimitOrderBook) → IsValid b → HasRoom e.size b → IsValid (apply e b)
unfolding apply apply_clear apply_trade apply_fill
apply-IsValid e b c room = dispatched e.action
  where
    dispatched : (a : Action) → IsValid (dispatch a e b)
    dispatched Action.add = apply_add-IsValid e b c room
    dispatched Action.modify = apply_modify-IsValid e b c room
    dispatched Action.cancel = apply_cancel-IsValid e b c
    dispatched Action.clear = new_book-IsConsistent
    dispatched Action.trade = c
    dispatched Action.fill = c
    dispatched Action.none = c
