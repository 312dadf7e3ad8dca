-- ===== src/Lob/FillSimulator/Steps.antt =====
-- One pass of the loop of src/lob/FillSimulator.cpp: whether it ends the loop, and what it takes.
use backtester_lab.Base.{
  ℕ, ◌<◌, ◌≡◌, ◌≢◌, refl, sym, ◌∙◌, ap, Bool, true, false, not, Option, none, some, arith,
  if◌then◌else◌, ◌==◌, nat_eq, nat_beq_iff, Bool-cases, ◌⊎◌, inl, inr, ◌||◌,
}
use backtester_lab.Base.Int.{ℤ, ltb_ℤ, int_eq}
use backtester_lab.Domain.{Side, side_beq}
use backtester_lab.Levels.Order.{less, greater}
use backtester_lab.Map.Laws.{find-insert_self}
use backtester_lab.Sides.{add_volume}
use backtester_lab.Sides.Laws.{IsLadders}
use backtester_lab.Lob.Historical.{Historical, historical_snapshot}
use backtester_lab.Lob.Historical.Valid.{IsHistorical, historical_snapshot-IsLadders}
use backtester_lab.Lob.EngineView.{
  EngineView, consumed_liquidity, consume, consume_historical_liquidity,
}
use backtester_lab.Lob.FillSimulator.{
  SimulatedOrderRequest, Filling, take_level, fill_step, visible_historical_best_bid,
  visible_historical_best_ask,
}
use backtester_lab.Lob.FillSimulator.Offers.{
  seen_at, IsTop, visible_best_bid-IsTop, visible_best_ask-IsTop,
}

-- The side that an order takes liquidity from.
abbrev pub opposite : Side → Side
opposite Side.bid = Side.ask
opposite Side.ask = Side.bid
opposite Side.none = Side.none

-- A buyer pays the limit at most, and a seller gets the limit at least.
unfoldable pub within_limit : SimulatedOrderRequest → ℤ → Bool
within_limit request price =
    if side_beq request.side Side.bid
    then not (ltb_ℤ request.limit_price price)
    else not (ltb_ℤ price request.limit_price)

-- What `view` can still see for a request at a price: the historical volume on the other side,
-- less what the engine has taken.
abbrev pub offered : Historical → SimulatedOrderRequest → EngineView → ℤ → ℕ
offered h r view p =
    seen_at (historical_snapshot r.instrument_id h) view r.instrument_id (opposite r.side) p

pub consumed-consume :
    (i : ℕ) (t : Side) (p : ℤ) (n : ℕ) (view : EngineView)
    → i ≢ 0
    → 0 < n
    → consumed_liquidity i (consume_historical_liquidity i t p n view)
      ≡ add_volume t p n (consumed_liquidity i view)
unfolding consumed_liquidity consume_historical_liquidity consume
consumed-consume i t p n view known positive =
    let h : ((i == 0) || (n == 0)) ≡ false = ground (arith, nat_beq_iff i 0, nat_beq_iff n 0) in
    rw
      (
        h,
        consumed_liquidity,
        find-insert_self i (consume t p n (consumed_liquidity i view))
            view.consumed_historical_liquidity,
        consume,
      )
      refl

-- The pass either ends the loop, and then nothing can be seen within the limit, or takes the best
-- level, which lies within the limit.
pub data IsStep (h : Historical) (r : SimulatedOrderRequest) (id : ℕ) (s : Filling)
    : Option Filling → Type 0 where
  stop :
      ((p : ℤ) → (if within_limit r p then offered h r s.view p else 0) ≡ 0) → IsStep h r id s none
  take :
      (side : Side) (best : ℤ × ℕ)
      → side ≡ opposite r.side
      → within_limit r best.0 ≡ true
      → offered h r s.view best.0 ≡ best.1
      → 0 < best.1
      → IsStep h r id s (some (take_level r id side best s))

below-crossed :
    (limit best p : ℤ) → ltb_ℤ limit best ≡ true → ltb_ℤ limit p ≡ false → ltb_ℤ p best ≡ true
unfolding ltb_ℤ
below-crossed limit best p h k = ground arith

above-crossed :
    (limit best p : ℤ) → ltb_ℤ best limit ≡ true → ltb_ℤ p limit ≡ false → ltb_ℤ best p ≡ true
unfolding ltb_ℤ
above-crossed limit best p h k = ground arith

buy-within :
    (r : SimulatedOrderRequest) (p : ℤ)
    → r.side ≡ Side.bid
    → within_limit r p ≡ not (ltb_ℤ r.limit_price p)
unfolding within_limit side_beq
buy-within r p e = rw e refl

sell-within :
    (r : SimulatedOrderRequest) (p : ℤ)
    → r.side ≡ Side.ask
    → within_limit r p ≡ not (ltb_ℤ p r.limit_price)
unfolding within_limit side_beq
sell-within r p e = rw e refl

buy-test : (r : SimulatedOrderRequest) → r.side ≡ Side.bid → side_beq r.side Side.bid ≡ true
unfolding side_beq
buy-test r e = rw e refl

sell-test : (r : SimulatedOrderRequest) → r.side ≡ Side.ask → side_beq r.side Side.bid ≡ false
unfolding side_beq
sell-test r e = rw e refl

-- One branch of the pass, for the side `t` that it takes from: `crossed p` says that `p` is outside
-- the limit.
module _ (h : Historical) (r : SimulatedOrderRequest) (id : ℕ) (s : Filling) (t : Side)
    (other : t ≡ opposite r.side) (before : ℤ → ℤ → Bool) (crossed : ℤ → Bool)
    (limit : (p : ℤ) → within_limit r p ≡ not (crossed p))
    (closer : (best p : ℤ) → crossed best ≡ true → crossed p ≡ false → before p best ≡ true) where
  abbrev seen_on : ℤ → ℕ
  seen_on = seen_at (historical_snapshot r.instrument_id h) s.view r.instrument_id t

  seen-offered : (p : ℤ) → seen_on p ≡ offered h r s.view p
  seen-offered p = rw other refl

  within-unseen :
      (p : ℤ) → seen_on p ≡ 0 → (if within_limit r p then offered h r s.view p else 0) ≡ 0
  within-unseen p none_seen = ground (arith, seen-offered p)

  branch-IsStep :
      (best : Option (ℤ × ℕ))
      → IsTop before seen_on best
      → IsStep h r id s (elim best [
        | none ↦ none
        | some level ↦ if crossed level.0 then none else some (take_level r id t level s)
      ])
  branch-IsStep none b = stop (λ p. within-unseen p (b p))
  branch-IsStep (some (price, n)) b = elim (Bool-cases (crossed price)) [
    | inl over ↦ rw over (
        stop (λ p. elim (Bool-cases (crossed p)) [
          | inl outside ↦ rw (limit p, outside) refl
          | inr inside ↦ within-unseen p (b.2 p (closer price p over inside))
        ]))
    | inr meets ↦
        rw meets (
          take t (price, n) other (limit price ∙ ap not meets) (sym (seen-offered price) ∙ b.0) b.1)
  ]

-- A pass ends the loop exactly if nothing can be seen within the limit, and takes the best level
-- otherwise.
pub fill_step-IsStep :
    (h : Historical) (r : SimulatedOrderRequest) (id : ℕ) (s : Filling)
    → IsHistorical h
    → (r.side ≡ Side.bid) ⊎ (r.side ≡ Side.ask)
    → IsLadders (consumed_liquidity r.instrument_id s.view)
    → IsStep h r id s (fill_step h r id s)
unfolding fill_step
fill_step-IsStep h r id s v sided t =
    let i = r.instrument_id in
    let (named, ladders) = historical_snapshot-IsLadders i h v in
    let snapshot = historical_snapshot i h in
    elim sided [
      | inl buys ↦ rw (buy-test r buys) (
          branch-IsStep h r id s Side.ask (ap opposite (sym buys)) less (λ p. ltb_ℤ r.limit_price p)
            (λ p. buy-within r p buys) (λ best p. below-crossed r.limit_price best p)
            (visible_historical_best_ask snapshot s.view i)
            (visible_best_ask-IsTop snapshot s.view i named ladders t))
      | inr sells ↦ rw (sell-test r sells) (
          branch-IsStep h r id s Side.bid (ap opposite (sym sells)) greater
            (λ p. ltb_ℤ p r.limit_price) (λ p. sell-within r p sells)
            (λ best p. above-crossed r.limit_price best p)
            (visible_historical_best_bid snapshot s.view i)
            (visible_best_bid-IsTop snapshot s.view i named ladders t))
    ]
