-- ===== src/Book/LimitOrderBook/Invariant.antt =====
-- The invariant of a book: its price levels against its resting orders.
use backtester_lab.Base.{ℕ, ◌<◌, ◌≡◌, ◌≢◌, true, some, arith, nat_eq}
use backtester_lab.Base.Int.{ℤ}
use backtester_lab.Domain.{Side, MarketDataEvent, has_valid_resting_state, has_valid_side}
use backtester_lab.Map.{Map, find, insert, erase, Distinct, sum_by}
use backtester_lab.Map.Laws.{find-insert, find-erase, insert-Distinct, erase-Distinct}
use backtester_lab.Sides.{Sides, remove_volume}
use backtester_lab.Sides.Aggregate.{IsSum, IsSum-erase}
use backtester_lab.Book.LimitOrderBook.{RestingOrder, order_of}

abbrev pub side_of : RestingOrder → Side
side_of r = r.side

abbrev pub price_of : RestingOrder → ℤ
price_of r = r.price

abbrev pub size_of : RestingOrder → ℕ
size_of r = r.size

-- The size of all resting orders together.
unfoldable pub total : Map ℕ RestingOrder → ℕ
total orders = sum_by size_of orders

-- What every resting order satisfies.
pub record IsResting (k : ℕ) (r : RestingOrder) : Type 0 where
  pub identified : k ≢ 0
  pub positive : 0 < r.size
  pub sided : has_valid_side r.side ≡ true

pub record IsConsistent (levels : Sides) (orders : Map ℕ RestingOrder) : Type 0 where
  pub sums : IsSum side_of price_of size_of levels orders
  pub distinct : Distinct orders
  pub resting : (k : ℕ) (r : RestingOrder) → find k orders ≡ some r → IsResting k r

pub valid_order :
    (e : MarketDataEvent) → has_valid_resting_state e ≡ true → IsResting e.order_id (order_of e)
unfolding has_valid_resting_state has_valid_side
valid_order e h = record {
  identified = ground arith;
  positive = ground arith;
  sided = ground arith;
}

insert-resting :
    (k : ℕ) (v : RestingOrder) (orders : Map ℕ RestingOrder)
    → IsResting k v
    → ((j : ℕ) (r : RestingOrder) → find j orders ≡ some r → IsResting j r)
    → (j : ℕ) (r : RestingOrder) → find j (insert k v orders) ≡ some r
    → IsResting j r
insert-resting k v orders new old j r h = ground (arith, find-insert j k v orders, old j r)

erase-resting :
    (k : ℕ) (orders : Map ℕ RestingOrder)
    → Distinct orders
    → ((j : ℕ) (r : RestingOrder) → find j orders ≡ some r → IsResting j r)
    → (j : ℕ) (r : RestingOrder) → find j (erase k orders) ≡ some r
    → IsResting j r
erase-resting k orders d old j r h = ground (arith, find-erase j k orders d, old j r)

pub insert-IsConsistent :
    (k : ℕ) (v : RestingOrder) (levels levels' : Sides) (orders : Map ℕ RestingOrder)
    → IsConsistent levels orders
    → IsResting k v
    → IsSum side_of price_of size_of levels' (insert k v orders)
    → IsConsistent levels' (insert k v orders)
insert-IsConsistent k v levels levels' orders c new sums = record {
  sums = sums;
  distinct = insert-Distinct k v orders c.distinct;
  resting = insert-resting k v orders new c.resting;
}

pub erase-IsConsistent :
    (k : ℕ) (v : RestingOrder) (levels : Sides) (orders : Map ℕ RestingOrder)
    → IsConsistent levels orders
    → find k orders ≡ some v
    → IsConsistent (remove_volume v.side v.price v.size levels) (erase k orders)
erase-IsConsistent k v levels orders c found = record {
  sums = IsSum-erase side_of price_of size_of levels orders k v c.sums found;
  distinct = erase-Distinct k orders c.distinct;
  resting = erase-resting k orders c.distinct c.resting;
}
