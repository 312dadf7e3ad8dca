-- ===== src/Book/LimitOrderBook/Best.antt =====
-- The best prices of a book and its lists of levels.
use backtester_lab.Base.{
  ℕ, ◌<◌, ◌≡◌, ◌≢◌, Bool, true, false, none, some, arith, take, nat_eq, subst, Bool-cases,
  Option-cases, inl, inr,
}
use backtester_lab.Base.Int.{ℤ, int_eq, int_beq_iff}
use backtester_lab.Domain.{Side, has_valid_side}
use backtester_lab.Levels.{first_level}
use backtester_lab.Levels.Order.{less, greater, less-StrictOrder, greater-StrictOrder}
use backtester_lab.Levels.Best.{
  volume-first_level, volume-before_first, volume-no_level, copy_levels-take,
}
use backtester_lab.Map.{find}
use backtester_lab.Map.Sums.{weight-le-sum_by, sum_by-pos}
use backtester_lab.Sides.{volume_on, same_level}
use backtester_lab.Sides.Aggregate.{size_at}
use backtester_lab.Book.LimitOrderBook.{
  LimitOrderBook, RestingOrder, best_bid, best_ask, bid_levels, ask_levels,
}
use backtester_lab.Book.LimitOrderBook.Invariant.{side_of, price_of, size_of}
use backtester_lab.Book.LimitOrderBook.Preserve.{IsValid}

size_at_self :
    (r : RestingOrder)
    → has_valid_side r.side ≡ true
    → size_at side_of price_of size_of r.side r.price r ≡ r.size
unfolding size_at same_level has_valid_side
size_at_self r h = ground (arith, int_beq_iff r.price r.price)

size_at-pos :
    (s : Side) (p : ℤ) (r : RestingOrder)
    → 0 < size_at side_of price_of size_of s p r
    → (r.side ≡ s) × (r.price ≡ p)
unfolding size_at same_level
size_at-pos s p r h = ground (arith, int_beq_iff p r.price)

-- A resting order counts at its own level.
resting-volume :
    (b : LimitOrderBook) (k : ℕ) (r : RestingOrder)
    → IsValid b
    → find k b.orders ≡ some r
    → 0 < volume_on r.side r.price b.levels
resting-volume b k r c found =
    let rest = c.resting k r found in
    ground (
      arith,
      rest.positive,
      size_at_self r rest.sided,
      c.sums.volumes r.side r.price,
      weight-le-sum_by (size_at side_of price_of size_of r.side r.price) k b.orders,
    )

-- Where there is volume, an order rests.
volume-resting :
    (b : LimitOrderBook) (s : Side) (p : ℤ)
    → IsValid b
    → 0 < volume_on s p b.levels
    → (k : ℕ) × (r : RestingOrder) × (find k b.orders ≡ some r) × (r.side ≡ s) × (r.price ≡ p)
volume-resting b s p c h =
    let (k, r, found, counts) =
      sum_by-pos (size_at side_of price_of size_of s p) b.orders c.distinct
        (omega (arith, c.sums.volumes s p)) in
    let (side, price) = size_at-pos s p r counts in (k, r, found, side, price)

-- An order of side `s` at price `p` rests, and no order of that side is at a better price.
pub record IsBest (before : ℤ → ℤ → Bool) (s : Side) (p : ℤ) (b : LimitOrderBook) : Type 0 where
  pub held :
      (k : ℕ) × (r : RestingOrder) × (find k b.orders ≡ some r) × (r.side ≡ s) × (r.price ≡ p)
  pub best :
      (k : ℕ) (r : RestingOrder) → find k b.orders ≡ some r → r.side ≡ s → before r.price p ≡ false

IsBest-of_volumes :
    (before : ℤ → ℤ → Bool) (s : Side) (p : ℤ) (b : LimitOrderBook)
    → IsValid b
    → 0 < volume_on s p b.levels
    → ((q : ℤ) → before q p ≡ true → volume_on s q b.levels ≡ 0)
    → IsBest before s p b
IsBest-of_volumes before s p b c pos above = record {
  held = volume-resting b s p c pos;
  best = λ k r found side. elim (Bool-cases (before r.price p)) [
    | inl better ↦
        let counts : 0 < volume_on s r.price b.levels =
          subst (λ t. 0 < volume_on t r.price b.levels) side (resting-volume b k r c found) in
        absurd (omega (arith, above r.price better))
    | inr worse ↦ worse
  ];
}

-- The best bid of a valid book is the highest price at which a bid rests.
pub best_bid-IsBest :
    (b : LimitOrderBook) (p : ℤ) → IsValid b → best_bid b ≡ some p → IsBest greater Side.bid p b
unfolding best_bid
best_bid-IsBest b p c h = elim (Option-cases (first_level b.levels.bids)) [
  | inl empty ↦ absurd (ground arith)
  | inr ((q, v), first) ↦
      let e : q ≡ p = ground arith in
      subst (λ x. IsBest greater Side.bid x b) e
        (unfold volume_on in
          IsBest-of_volumes greater Side.bid q b c
            (ground (
              arith,
              volume-first_level greater greater-StrictOrder b.levels.bids q v c.sums.ladders.bids
                  first,
            ))
            (λ i better.
              volume-before_first greater greater-StrictOrder b.levels.bids q i v first better))
]

-- The best ask of a valid book is the lowest price at which an ask rests.
pub best_ask-IsBest :
    (b : LimitOrderBook) (p : ℤ) → IsValid b → best_ask b ≡ some p → IsBest less Side.ask p b
unfolding best_ask
best_ask-IsBest b p c h = elim (Option-cases (first_level b.levels.asks)) [
  | inl empty ↦ absurd (ground arith)
  | inr ((q, v), first) ↦
      let e : q ≡ p = ground arith in
      subst (λ x. IsBest less Side.ask x b) e
        (unfold volume_on in
          IsBest-of_volumes less Side.ask q b c
            (ground (
              arith,
              volume-first_level less less-StrictOrder b.levels.asks q v c.sums.ladders.asks first,
            ))
            (λ i better.
              volume-before_first less less-StrictOrder b.levels.asks q i v first better))
]

-- Without a best bid no bid rests.
pub best_bid-none :
    (b : LimitOrderBook) (k : ℕ) (r : RestingOrder)
    → IsValid b
    → best_bid b ≡ none
    → find k b.orders ≡ some r
    → r.side ≢ Side.bid
unfolding best_bid
best_bid-none b k r c empty found side =
    let counts : 0 < volume_on Side.bid r.price b.levels =
      subst (λ t. 0 < volume_on t r.price b.levels) side (resting-volume b k r c found) in
    let no_bids : first_level b.levels.bids ≡ none = ground arith in
    absurd (
      unfold volume_on in
      omega
        (arith, volume-no_level greater greater-StrictOrder b.levels.bids r.price no_bids, counts))

-- Without a best ask no ask rests.
pub best_ask-none :
    (b : LimitOrderBook) (k : ℕ) (r : RestingOrder)
    → IsValid b
    → best_ask b ≡ none
    → find k b.orders ≡ some r
    → r.side ≢ Side.ask
unfolding best_ask
best_ask-none b k r c empty found side =
    let counts : 0 < volume_on Side.ask r.price b.levels =
      subst (λ t. 0 < volume_on t r.price b.levels) side (resting-volume b k r c found) in
    let no_asks : first_level b.levels.asks ≡ none = ground arith in
    absurd (
      unfold volume_on in
      omega (arith, volume-no_level less less-StrictOrder b.levels.asks r.price no_asks, counts))

-- The lists of levels are the first `depth` levels of each side, best price first.
pub bid_levels-take :
    (depth : ℕ) (b : LimitOrderBook)
    → (bid_levels depth b ≡ take depth b.levels.bids)
      × (ask_levels depth b ≡ take depth b.levels.asks)
unfolding bid_levels ask_levels
bid_levels-take depth b =
    (copy_levels-take depth b.levels.bids, copy_levels-take depth b.levels.asks)
