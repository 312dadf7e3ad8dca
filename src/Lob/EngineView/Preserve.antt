-- ===== src/Lob/EngineView/Preserve.antt =====
-- The invariant of a view, for each of its operations.
use backtester_lab.Base.{
  ℕ, ◌+◌, ◌<◌, ◌≡◌, ◌≢◌, refl, sym, ap, false, not, ◌||◌, none, some, arith, ◌==◌, nat_eq,
  nat_beq_iff, u64-eq_of_lt, ◌∙◌, u64_mod, Bool-cases, Option-cases, inl, inr,
}
use backtester_lab.Base.Int.{ℤ}
use backtester_lab.Domain.{Side}
use backtester_lab.Levels.{volume, find_level}
use backtester_lab.Map.{Map, find, insert, erase, Distinct, sum_by}
use backtester_lab.Map.Laws.{
  find-insert, find-insert_self, find-erase, erase-missing, insert-Distinct, erase-Distinct,
}
use backtester_lab.Map.Sums.{sum_by-insert, sum_by-erase}
use backtester_lab.Sides.{volume_on}
use backtester_lab.Sides.Aggregate.{size_at}
use backtester_lab.Lob.EngineView.{
  EngineView, SyntheticOrder, new_view, synthetic_book, has_valid_synthetic_order,
  reserve_synthetic_order_id, add_synthetic_order_with_id, add_synthetic_order,
  cancel_synthetic_order, consume_historical_liquidity,
}
use backtester_lab.Lob.EngineView.Sums.{
  side_of, price_of, size_for, size_of, SumsFor, add-SumsFor, cancel-SumsFor,
}

-- Each book is a sum, every id in use is below the next one, and sizes are positive.
pub record IsView (v : EngineView) : Type 0 where
  pub sums : (i : ℕ) → SumsFor i (synthetic_book i v) v.own_orders
  pub distinct : Distinct v.own_orders
  pub below : (k : ℕ) (o : SyntheticOrder) → find k v.own_orders ≡ some o → k < v.next_order_id

-- The ids below the next one are the only ones in use, so the next one is free.
next-fresh : (v : EngineView) → IsView v → find v.next_order_id v.own_orders ≡ none
next-fresh v c = elim (Option-cases (find v.next_order_id v.own_orders)) [
  | inl missing ↦ missing
  | inr (o, found) ↦ absurd (omega (arith, c.below v.next_order_id o found))
]

valid-positive :
    (o : SyntheticOrder)
    → ((o.instrument_id == 0) || not (has_valid_synthetic_order o.side o.price o.size)) ≡ false
    → 0 < o.size
unfolding has_valid_synthetic_order
valid-positive o h = ground arith

-- A submitted order keeps every synthetic book the sum of the engine's own orders there, and the
-- ids in use below the next one, while the sizes and the ids stay below 2 ^ 64.
pub add_synthetic_order-IsView :
    (o : SyntheticOrder) (v : EngineView)
    → IsView v
    → sum_by size_of v.own_orders + o.size < u64_mod
    → v.next_order_id + 1 < u64_mod
    → IsView (add_synthetic_order o v).1
unfolding add_synthetic_order reserve_synthetic_order_id add_synthetic_order_with_id
add_synthetic_order-IsView o v c fits ids =
    elim (Bool-cases
      ((o.instrument_id == 0) || not (has_valid_synthetic_order o.side o.price o.size))) [
        | inl refused ↦ rw refused c
        | inr ok ↦ rw ok (record {
          sums =
              add-SumsFor v.next_order_id o (reserve_synthetic_order_id v).1 c.sums (next-fresh v c)
                (valid-positive o ok) fits;
          distinct = insert-Distinct v.next_order_id o v.own_orders c.distinct;
          below = λ k p h. ground (
            arith,
            nat_beq_iff v.next_order_id k,
            find-insert k v.next_order_id o v.own_orders,
            c.below k p,
            u64-eq_of_lt (v.next_order_id + 1) ids,
          );
        })
      ]

-- What a cancel does: the order leaves the engine's orders, and its size leaves its level.
pub record Cancels (k : ℕ) (v w : EngineView) : Type 0 where
  pub valid : IsView w
  pub gone : find k w.own_orders ≡ none
  pub others : (j : ℕ) → k ≢ j → find j w.own_orders ≡ find j v.own_orders
  pub level :
      (o : SyntheticOrder)
      → find k v.own_orders ≡ some o
      → (i : ℕ) (t : Side) (p : ℤ)
      → volume_on t p (synthetic_book i w) + size_at side_of price_of (size_for i) t p o
        ≡ volume_on t p (synthetic_book i v)
  pub kept :
      (w.next_order_id ≡ v.next_order_id)
      × (w.consumed_historical_liquidity ≡ v.consumed_historical_liquidity)

cancel_synthetic_order-IsView :
    (k : ℕ) (v : EngineView) → IsView v → IsView (cancel_synthetic_order k v)
unfolding cancel_synthetic_order
cancel_synthetic_order-IsView k v c = elim (Option-cases (find k v.own_orders)) [
  | inl missing ↦ rw (missing, cancel_synthetic_order) c
  | inr (o, found) ↦
      rw (found, cancel_synthetic_order)
        (record {
          sums = cancel-SumsFor k o v c.sums found;
          distinct = erase-Distinct k v.own_orders c.distinct;
          below = λ j p h. ground (arith, find-erase j k v.own_orders c.distinct, c.below j p);
        })
]

-- The engine's orders after a cancel are those without the cancelled one.
own_orders-cancel :
    (k : ℕ) (v : EngineView) → (cancel_synthetic_order k v).own_orders ≡ erase k v.own_orders
unfolding cancel_synthetic_order
own_orders-cancel k v = elim (Option-cases (find k v.own_orders)) [
  | inl missing ↦ rw (missing, cancel_synthetic_order) (sym (erase-missing k v.own_orders missing))
  | inr (o, found) ↦ rw (found, cancel_synthetic_order) refl
]

-- A cancelled order leaves the engine's orders, and its size leaves its level of its synthetic book;
-- all other orders, levels and books stay, and so do the next id and the taken liquidity. The view
-- stays valid: each book is the sum of the orders that are left.
pub cancel_synthetic_order-Cancels :
    (k : ℕ) (v : EngineView) → IsView v → Cancels k v (cancel_synthetic_order k v)
unfolding cancel_synthetic_order
cancel_synthetic_order-Cancels k v c =
    let done = cancel_synthetic_order-IsView k v c in
    record {
      valid = done;
      gone = rw (own_orders-cancel k v) (ground (arith, find-erase k k v.own_orders c.distinct));
      others = λ j other.
          rw (own_orders-cancel k v)
            (ground (arith, find-erase j k v.own_orders c.distinct, nat_beq_iff k j));
      level = λ o found i t p.
          let w = size_at side_of price_of (size_for i) t p in
          ground (
            arith,
            (done.sums i).volumes t p,
            (c.sums i).volumes t p,
            ap (sum_by w) (own_orders-cancel k v),
            sum_by-erase w k v.own_orders,
          );
      kept = elim (Option-cases (find k v.own_orders)) [
        | inl missing ↦ rw (missing, cancel_synthetic_order) (refl, refl)
        | inr (o, found) ↦ rw (found, cancel_synthetic_order) (refl, refl)
      ];
    }

-- Taking historical liquidity changes no own order and no synthetic book.
pub consume-IsView :
    (i : ℕ) (s : Side) (p : ℤ) (n : ℕ) (v : EngineView)
    → IsView v
    → IsView (consume_historical_liquidity i s p n v)
unfolding consume_historical_liquidity synthetic_book
consume-IsView i s p n v c = elim (Bool-cases ((i == 0) || (n == 0))) [
  | inl nothing ↦ rw nothing c
  | inr some_size ↦ rw some_size (record { sums = c.sums; distinct = c.distinct; below = c.below })
]

pub new_view-IsView : (engine_id : ℕ) → IsView (new_view engine_id)
unfolding new_view synthetic_book find volume_on volume find_level sum_by
new_view-IsView engine_id = record {
  sums = λ i. record { ladders = record { bids = tt; asks = tt }; volumes = λ t p. ground arith };
  distinct = tt;
  below = λ k o h. ground arith;
}

sum_by-erase-insert :
    (w : SyntheticOrder → ℕ) (k : ℕ) (o : SyntheticOrder) (orders : Map ℕ SyntheticOrder)
    → find k orders ≡ none
    → sum_by w (erase k (insert k o orders)) ≡ sum_by w orders
sum_by-erase-insert w k o orders fresh = ground (
  arith,
  find-insert_self k o orders,
  sum_by-insert w k o orders,
  sum_by-erase w k (insert k o orders),
)

-- An order that is accepted and then cancelled leaves every level of every synthetic book with the
-- volume that it had, while the sizes and the ids stay below 2 ^ 64.
pub cancel-add :
    (o : SyntheticOrder) (v : EngineView) (i : ℕ) (t : Side) (p : ℤ)
    → IsView v
    → sum_by size_of v.own_orders + o.size < u64_mod
    → v.next_order_id + 1 < u64_mod
    → (add_synthetic_order o v).0 ≢ 0
    → let r = add_synthetic_order o v in
      volume_on t p (synthetic_book i (cancel_synthetic_order r.0 r.1))
      ≡ volume_on t p (synthetic_book i v)
cancel-add o v i t p c fits ids accepted =
    let r = add_synthetic_order o v in
    let added : IsView r.1 = add_synthetic_order-IsView o v c fits ids in
    let done = cancel_synthetic_order-IsView r.0 r.1 added in
    (done.sums i).volumes t p ∙ same ∙ sym ((c.sums i).volumes t p)
  where
    w : SyntheticOrder → ℕ
    w = size_at side_of price_of (size_for i) t p

    same :
        sum_by w
          (cancel_synthetic_order
            (add_synthetic_order o v).0
            (add_synthetic_order o v).1).own_orders
        ≡ sum_by w v.own_orders
    same =
        unfold add_synthetic_order add_synthetic_order_with_id reserve_synthetic_order_id
          cancel_synthetic_order in
        ground (
          arith,
          accepted,
          find-insert_self v.next_order_id o v.own_orders,
          sum_by-erase-insert w v.next_order_id o v.own_orders (next-fresh v c),
        )
