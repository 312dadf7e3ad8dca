-- ===== src/Sides/Laws.antt =====
-- The volume on each side at each price after `add_volume` and `remove_volume`.
use backtester_lab.Base.{ℕ, ◌+◌, ◌-◌, ◌<◌, ◌≡◌, arith, if◌then◌else◌, u64_mod}
use backtester_lab.Base.Int.{ℤ, int_beq_iff}
use backtester_lab.Domain.{Side}
use backtester_lab.Levels.Order.{less, greater, IsLadder, less-StrictOrder, greater-StrictOrder}
use backtester_lab.Levels.Laws.{
  volume-add_self, volume-add_ne, volume-remove_self, volume-remove_ne, add_level-IsLadder,
  remove_level-IsLadder,
}
use backtester_lab.Sides.{Sides, add_volume, remove_volume, volume_on, same_level}

pub record IsLadders (s : Sides) : Type 0 where
  pub bids : IsLadder greater s.bids
  pub asks : IsLadder less s.asks

pub volume_on-add :
    (t : Side) (q : ℤ) (n : ℕ) (s : Sides) (u : Side) (p : ℤ)
    → volume_on t q s + n < u64_mod
    → volume_on u p (add_volume t q n s) ≡ volume_on u p s + (if same_level u p t q then n else 0)
unfolding volume_on add_volume same_level
volume_on-add Side.bid q n s Side.bid p h = ground (
  arith,
  int_beq_iff p q,
  volume-add_self greater greater-StrictOrder q n s.bids,
  volume-add_ne greater greater-StrictOrder p q n s.bids,
)
volume_on-add Side.ask q n s Side.ask p h = ground (
  arith,
  int_beq_iff p q,
  volume-add_self less less-StrictOrder q n s.asks,
  volume-add_ne less less-StrictOrder p q n s.asks,
)
volume_on-add t q n s u p h = ground arith

pub volume_on-remove :
    (t : Side) (q : ℤ) (n : ℕ) (s : Sides) (u : Side) (p : ℤ)
    → IsLadders s
    → volume_on u p (remove_volume t q n s)
      ≡ volume_on u p s - (if same_level u p t q then n else 0)
unfolding volume_on remove_volume same_level
volume_on-remove Side.bid q n s Side.bid p h = ground (
  arith,
  int_beq_iff p q,
  volume-remove_self greater greater-StrictOrder q n s.bids h.bids,
  volume-remove_ne greater greater-StrictOrder p q n s.bids,
)
volume_on-remove Side.ask q n s Side.ask p h = ground (
  arith,
  int_beq_iff p q,
  volume-remove_self less less-StrictOrder q n s.asks h.asks,
  volume-remove_ne less less-StrictOrder p q n s.asks,
)
volume_on-remove t q n s u p h = ground arith

pub add_volume-IsLadders :
    (t : Side) (q : ℤ) (n : ℕ) (s : Sides)
    → IsLadders s
    → 0 < n
    → volume_on t q s + n < u64_mod
    → IsLadders (add_volume t q n s)
unfolding volume_on add_volume
add_volume-IsLadders Side.bid q n s l h b = record {
  bids = add_level-IsLadder greater greater-StrictOrder q n s.bids l.bids h b;
  asks = l.asks;
}
add_volume-IsLadders Side.ask q n s l h b = record {
  bids = l.bids;
  asks = add_level-IsLadder less less-StrictOrder q n s.asks l.asks h b;
}
add_volume-IsLadders Side.none q n s l h b = l

pub remove_volume-IsLadders :
    (t : Side) (q : ℤ) (n : ℕ) (s : Sides) → IsLadders s → IsLadders (remove_volume t q n s)
unfolding remove_volume
remove_volume-IsLadders Side.bid q n s l = record {
  bids = remove_level-IsLadder greater greater-StrictOrder q n s.bids l.bids;
  asks = l.asks;
}
remove_volume-IsLadders Side.ask q n s l = record {
  bids = l.bids;
  asks = remove_level-IsLadder less less-StrictOrder q n s.asks l.asks;
}
remove_volume-IsLadders Side.none q n s l = l
