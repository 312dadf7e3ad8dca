-- ===== src/Lob/FillSimulator/Offers.antt =====
-- What an engine can still see of the historical levels, and the best of it.
use backtester_lab.Base.{
  ℕ, ◌-◌, ◌<◌, ◌≡◌, refl, sym, [], ◌∷◌, Option, none, some, arith, ◌==◌, nat_eq, Bool, true, ◌∙◌,
  beq_refl,
}
use backtester_lab.Base.Int.{ℤ}
use backtester_lab.Domain.{Side}
use backtester_lab.Levels.{Levels, volume, first_level}
use backtester_lab.Levels.Order.{
  less, greater, IsLadder, StrictOrder, less-StrictOrder, greater-StrictOrder,
}
use backtester_lab.Levels.Best.{volume-first_level, volume-before_first, volume-no_level}
use backtester_lab.Levels.Combine.{volume-visible}
use backtester_lab.Sides.{volume_on}
use backtester_lab.Sides.Laws.{IsLadders}
use backtester_lab.Lob.HistoricalLob.{LobSnapshot}
use backtester_lab.Lob.Historical.Valid.{sides_of}
use backtester_lab.Lob.EngineView.{EngineView, consumed_liquidity, consumed_bids, consumed_asks}
use backtester_lab.Lob.FillSimulator.{
  visible_historical_bids, visible_historical_asks, visible_historical_best_bid,
  visible_historical_best_ask,
}

-- What `view` can still see of the level at price `p` of side `t`.
abbrev pub seen_at : LobSnapshot → EngineView → ℕ → Side → ℤ → ℕ
seen_at snapshot view i t p =
    volume_on t p (sides_of snapshot) - volume_on t p (consumed_liquidity i view)

module _ (snapshot : LobSnapshot) (view : EngineView) (i : ℕ) (named : snapshot.instrument_id ≡ i)
    (s : IsLadders (sides_of snapshot)) (t : IsLadders (consumed_liquidity i view)) where
  same_instrument : (snapshot.instrument_id == i) ≡ true
  same_instrument = rw named (beq_refl i)

  pub visible_historical_bids-volume :
      IsLadder greater (visible_historical_bids snapshot view i)
      × ((p : ℤ)
          → volume greater p (visible_historical_bids snapshot view i)
            ≡ seen_at snapshot view i Side.bid p)
  unfolding visible_historical_bids consumed_bids volume_on
  visible_historical_bids-volume = rw same_instrument (
      volume-visible greater greater-StrictOrder snapshot.bids (consumed_liquidity i view).bids
        s.bids t.bids)

  pub visible_historical_asks-volume :
      IsLadder less (visible_historical_asks snapshot view i)
      × ((p : ℤ)
          → volume less p (visible_historical_asks snapshot view i)
            ≡ seen_at snapshot view i Side.ask p)
  unfolding visible_historical_asks consumed_asks volume_on
  visible_historical_asks-volume = rw same_instrument (
      volume-visible less less-StrictOrder snapshot.asks (consumed_liquidity i view).asks s.asks
        t.asks)

-- The best level of one side: `none` for no level that can be seen, and for a level, its price and
-- size, with nothing to see at a better price.
abbrev pub IsTop : (ℤ → ℤ → Bool) → (ℤ → ℕ) → Option (ℤ × ℕ) → Type 0
IsTop before seen none = (p : ℤ) → seen p ≡ 0
IsTop before seen (some (p, n)) =
    (seen p ≡ n) × (0 < n) × ((q : ℤ) → before q p ≡ true → seen q ≡ 0)

pub first_level-IsTop :
    (before : ℤ → ℤ → Bool) (o : StrictOrder before) (l : Levels ℤ) (seen : ℤ → ℕ)
    → IsLadder before l
    → ((p : ℤ) → volume before p l ≡ seen p)
    → IsTop before seen (first_level l)
unfolding first_level
first_level-IsTop before o [] seen s h = λ p. omega (arith, h p, volume-no_level before o [] p refl)
first_level-IsTop before o ((p, n) ∷ l) seen s h =
    let at = volume-first_level before o ((p, n) ∷ l) p n s refl in
    (
      sym (h p) ∙ at.0,
      at.1,
      λ q b. sym (h q) ∙ volume-before_first before o ((p, n) ∷ l) p q n refl b,
    )

module _ (snapshot : LobSnapshot) (view : EngineView) (i : ℕ) (named : snapshot.instrument_id ≡ i)
    (s : IsLadders (sides_of snapshot)) (t : IsLadders (consumed_liquidity i view)) where
  pub visible_best_bid-IsTop :
      IsTop greater (seen_at snapshot view i Side.bid) (visible_historical_best_bid snapshot view i)
  unfolding visible_historical_best_bid
  visible_best_bid-IsTop =
      let (ladder, volumes) = visible_historical_bids-volume snapshot view i named s t in
      first_level-IsTop greater greater-StrictOrder (visible_historical_bids snapshot view i)
        (seen_at snapshot view i Side.bid) ladder volumes

  pub visible_best_ask-IsTop :
      IsTop less (seen_at snapshot view i Side.ask) (visible_historical_best_ask snapshot view i)
  unfolding visible_historical_best_ask
  visible_best_ask-IsTop =
      let (ladder, volumes) = visible_historical_asks-volume snapshot view i named s t in
      first_level-IsTop less less-StrictOrder (visible_historical_asks snapshot view i)
        (seen_at snapshot view i Side.ask) ladder volumes
