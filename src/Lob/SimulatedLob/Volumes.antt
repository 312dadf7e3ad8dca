-- ===== src/Lob/SimulatedLob/Volumes.antt =====
-- src/lob/SimulatedLOB.cpp: the volumes that the combined book shows, and the best of them.
use backtester_lab.Base.{Bool, ℕ, ◌+◌, ◌<◌, ◌≡◌, ◌∙◌, arith, u64_mod, length}
use backtester_lab.Base.Int.{ℤ}
use backtester_lab.Domain.{Side}
use backtester_lab.Levels.{Levels, copy_levels, volume}
use backtester_lab.Levels.Order.{
  less, greater, IsLadder, StrictOrder, less-StrictOrder, greater-StrictOrder,
}
use backtester_lab.Levels.Best.{copy_levels-take}
use backtester_lab.Levels.Combine.{add_levels, take-length, volume-add_levels}
use backtester_lab.Sides.{volume_on}
use backtester_lab.Sides.Laws.{IsLadders}
use backtester_lab.Lob.Historical.{Historical, historical_snapshot}
use backtester_lab.Lob.Historical.Valid.{IsHistorical, historical_snapshot-IsLadders}
use backtester_lab.Lob.EngineView.{
  EngineView, consumed_liquidity, synthetic_book, synthetic_bids, synthetic_asks,
}
use backtester_lab.Lob.FillSimulator.{visible_historical_bids, visible_historical_asks}
use backtester_lab.Lob.FillSimulator.Offers.{
  seen_at, IsTop, first_level-IsTop, visible_historical_bids-volume, visible_historical_asks-volume,
}
use backtester_lab.Lob.SimulatedLob.{visible_bids, visible_asks, best_bid, best_ask}

-- What the engine sees at a price: the historical volume that it has not taken, and its own orders.
abbrev pub visible_at : Historical → EngineView → ℕ → Side → ℤ → ℕ
visible_at h view i t p =
    seen_at (historical_snapshot i h) view i t p + volume_on t p (synthetic_book i view)

-- Levels with own levels put on them.
volume-with_own :
    (before : ℤ → ℤ → Bool) (o : StrictOrder before) (left own : Levels ℤ)
    → IsLadder before left
    → IsLadder before own
    → ((p : ℤ) → volume before p left + volume before p own < u64_mod)
    → (let both = add_levels before (copy_levels (length own) 0 own) left in
        IsLadder before both
        × ((p : ℤ) → volume before p both ≡ volume before p left + volume before p own))
volume-with_own before o left own s t fits =
    rw (copy_levels-take (length own) own ∙ take-length own)
      (volume-add_levels before o own left t s fits)

module _ (h : Historical) (view : EngineView) (i : ℕ) (valid : IsHistorical h)
    (taken : IsLadders (consumed_liquidity i view)) (own : IsLadders (synthetic_book i view))
    (room : (t : Side) (p : ℤ) → visible_at h view i t p < u64_mod) where
  -- Every bid level shows the historical volume that the engine has not taken, and its own orders.
  pub visible_bids-volume :
      IsLadder greater (visible_bids (historical_snapshot i h) view i)
      × ((p : ℤ)
          → volume greater p (visible_bids (historical_snapshot i h) view i)
            ≡ visible_at h view i Side.bid p)
  unfolding visible_bids visible_historical_bids synthetic_bids volume_on
  visible_bids-volume =
      let (named, ladders) = historical_snapshot-IsLadders i h valid in
      let left = visible_historical_bids (historical_snapshot i h) view i in
      let (ladder, seen) =
        visible_historical_bids-volume (historical_snapshot i h) view i named ladders taken in
      let (all, volumes) =
        volume-with_own greater greater-StrictOrder left (synthetic_book i view).bids ladder
          own.bids (λ p. omega (arith, seen p, room Side.bid p)) in
      (all, λ p. omega (arith, volumes p, seen p))

  pub visible_asks-volume :
      IsLadder less (visible_asks (historical_snapshot i h) view i)
      × ((p : ℤ)
          → volume less p (visible_asks (historical_snapshot i h) view i)
            ≡ visible_at h view i Side.ask p)
  unfolding visible_asks visible_historical_asks synthetic_asks volume_on
  visible_asks-volume =
      let (named, ladders) = historical_snapshot-IsLadders i h valid in
      let left = visible_historical_asks (historical_snapshot i h) view i in
      let (ladder, seen) =
        visible_historical_asks-volume (historical_snapshot i h) view i named ladders taken in
      let (all, volumes) =
        volume-with_own less less-StrictOrder left (synthetic_book i view).asks ladder own.asks
          (λ p. omega (arith, seen p, room Side.ask p)) in
      (all, λ p. omega (arith, volumes p, seen p))

  -- The best bid is the highest price, and the best ask the lowest, at which the engine sees volume,
  -- with that volume: the historical volume that it has not taken, and its own orders. There is none
  -- exactly if it sees no volume on that side.
  pub best-IsTop :
      IsTop greater (visible_at h view i Side.bid) (best_bid h view i)
      × IsTop less (visible_at h view i Side.ask) (best_ask h view i)
  unfolding best_bid best_ask
  best-IsTop =
      let (bid_ladder, bids) = visible_bids-volume in
      let (ask_ladder, asks) = visible_asks-volume in
      let snapshot = historical_snapshot i h in
      (
        first_level-IsTop greater greater-StrictOrder (visible_bids snapshot view i)
            (visible_at h view i Side.bid) bid_ladder bids,
        first_level-IsTop less less-StrictOrder (visible_asks snapshot view i)
            (visible_at h view i Side.ask) ask_ladder asks,
      )
