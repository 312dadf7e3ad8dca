-- ===== src/Sides/Aggregate.antt =====
-- Price levels that sum up resting orders. The orders are a map to any type that has a side, a
-- price and a size, since each book declares its own.
use backtester_lab.Base.{
  ℕ, ◌+◌, ◌-◌, ◌≤◌, ◌<◌, ◌≡◌, some, none, arith, if◌then◌else◌, u64_mod, nat_eq,
}
use backtester_lab.Base.Int.{ℤ}
use backtester_lab.Domain.{Side}
use backtester_lab.Map.{Map, find, insert, erase, sum_by}
use backtester_lab.Map.Sums.{sum_by-insert, sum_by-erase, weight-le-sum_by, sum_by-le}
use backtester_lab.Sides.{Sides, add_volume, remove_volume, volume_on, same_level}
use backtester_lab.Sides.Laws.{
  IsLadders, volume_on-add, volume_on-remove, add_volume-IsLadders, remove_volume-IsLadders,
}

module _ {V : Type 0} (side_of : V → Side) (price_of : V → ℤ) (size_of : V → ℕ) where
  -- The part of an order that counts at one level.
  unfoldable pub size_at : Side → ℤ → V → ℕ
  size_at s p v = if same_level s p (side_of v) (price_of v) then size_of v else 0

  -- The volume at every price is the sum of the orders that rest there, and the maps are in order.
  pub record IsSum (s : Sides) (orders : Map ℕ V) : Type 0 where
    pub ladders : IsLadders s
    pub volumes : (t : Side) (p : ℤ) → volume_on t p s ≡ sum_by (size_at t p) orders

  size_at-le : (t : Side) (p : ℤ) (v : V) → size_at t p v ≤ size_of v
  unfolding size_at
  size_at-le t p v = ground arith

  volume-le-total :
      (s : Sides) (orders : Map ℕ V) (t : Side) (p : ℤ)
      → IsSum s orders
      → volume_on t p s ≤ sum_by size_of orders
  volume-le-total s orders t p h =
      omega (arith, h.volumes t p, sum_by-le (size_at t p) size_of (size_at-le t p) orders)

  -- A new order: its id is not in the map yet.
  pub IsSum-insert :
      (s : Sides) (orders : Map ℕ V) (k : ℕ) (v : V)
      → IsSum s orders
      → find k orders ≡ none
      → 0 < size_of v
      → sum_by size_of orders + size_of v < u64_mod
      → IsSum (add_volume (side_of v) (price_of v) (size_of v) s) (insert k v orders)
  unfolding size_at
  IsSum-insert s orders k v h fresh positive fits = record {
    ladders = add_volume-IsLadders _ _ _ s h.ladders positive room;
    volumes = λ t p. ground (
      arith,
      volume_on-add (side_of v) (price_of v) (size_of v) s t p room,
      h.volumes t p,
      sum_by-insert (size_at t p) k v orders,
    );
  }
    where
      room : volume_on (side_of v) (price_of v) s + size_of v < u64_mod
      room = omega (arith, volume-le-total s orders (side_of v) (price_of v) h)

  -- An order that leaves takes its whole size off its level.
  pub IsSum-erase :
      (s : Sides) (orders : Map ℕ V) (k : ℕ) (v : V)
      → IsSum s orders
      → find k orders ≡ some v
      → IsSum (remove_volume (side_of v) (price_of v) (size_of v) s) (erase k orders)
  unfolding size_at
  IsSum-erase s orders k v h found = record {
    ladders = remove_volume-IsLadders _ _ _ s h.ladders;
    volumes = λ t p. ground (
      arith,
      volume_on-remove (side_of v) (price_of v) (size_of v) s t p h.ladders,
      h.volumes t p,
      sum_by-erase (size_at t p) k orders,
    );
  }

  -- An order that shrinks takes the difference off its level.
  pub IsSum-shrink :
      (s : Sides) (orders : Map ℕ V) (k n : ℕ) (v w : V)
      → IsSum s orders
      → find k orders ≡ some v
      → n ≤ size_of v
      → side_of w ≡ side_of v
      → price_of w ≡ price_of v
      → size_of w ≡ size_of v - n
      → IsSum (remove_volume (side_of v) (price_of v) n s) (insert k w orders)
  unfolding size_at
  IsSum-shrink s orders k n v w h found le same_side same_price rest = record {
    ladders = remove_volume-IsLadders _ _ _ s h.ladders;
    volumes = λ t p. ground (
      arith,
      volume_on-remove (side_of v) (price_of v) n s t p h.ladders,
      h.volumes t p,
      sum_by-insert (size_at t p) k w orders,
    );
  }

  -- An order that is replaced moves its volume from the old level to the new one.
  pub IsSum-replace :
      (s : Sides) (orders : Map ℕ V) (k : ℕ) (v w : V)
      → IsSum s orders
      → find k orders ≡ some v
      → 0 < size_of w
      → sum_by size_of orders + size_of w < u64_mod
      → IsSum
          (add_volume
            (side_of w)
            (price_of w)
            (size_of w)
            (remove_volume (side_of v) (price_of v) (size_of v) s))
          (insert k w orders)
  unfolding size_at
  IsSum-replace s orders k v w h found positive fits = record {
    ladders = add_volume-IsLadders _ _ _ removed ladders positive room;
    volumes = λ t p. ground (
      arith,
      volume_on-add (side_of w) (price_of w) (size_of w) removed t p room,
      volume_on-remove (side_of v) (price_of v) (size_of v) s t p h.ladders,
      h.volumes t p,
      sum_by-insert (size_at t p) k w orders,
      weight-le-sum_by (size_at t p) k orders,
    );
  }
    where
      removed : Sides
      removed = remove_volume (side_of v) (price_of v) (size_of v) s

      ladders : IsLadders removed
      ladders = remove_volume-IsLadders _ _ _ s h.ladders

      room : volume_on (side_of w) (price_of w) removed + size_of w < u64_mod
      room = omega (
        arith,
        volume-le-total s orders (side_of w) (price_of w) h,
        volume_on-remove (side_of v) (price_of v) (size_of v) s (side_of w) (price_of w) h.ladders,
      )
