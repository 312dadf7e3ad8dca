-- ===== src/Lob/FillSimulator/Submit.antt =====
-- src/lob/FillSimulator.cpp: `submitLimitOrderResult` as a whole.
use backtester_lab.Base.{
  ℕ, ◌+◌, ◌<◌, ◌≤◌, ◌≡◌, refl, sym, ◌∙◌, ap, subst, true, some, arith, if◌then◌else◌, nat_eq,
  nat_beq_iff, u64_mod, Bool-cases, ◌⊎◌, inl, inr, ltb, sum_map, All,
}
use backtester_lab.Base.Int.{ℤ, int_eq}
use backtester_lab.Domain.{Side, has_valid_side, side_beq}
use backtester_lab.Map.{find, insert}
use backtester_lab.Sides.{volume_on}
use backtester_lab.Sides.Laws.{IsLadders}
use backtester_lab.Lob.Historical.{Historical}
use backtester_lab.Lob.Historical.Valid.{IsHistorical}
use backtester_lab.Lob.EngineView.{
  EngineView, SyntheticOrder, consumed_liquidity, add_synthetic_order_with_id,
  reserve_synthetic_order_id,
}
use backtester_lab.Lob.FillSimulator.{
  SimulatedOrderRequest, SimulatedOrderResult, Filling, EngineViews, has_valid_request,
  rest_remaining, start_filling, submit_limit_order_result,
}
use backtester_lab.Lob.FillSimulator.Steps.{opposite, within_limit, offered}
use backtester_lab.Lob.FillSimulator.Fills.{
  IsFillOf, IsFilled, IsRequest, taken, filled_at, fill_size_of, fill_loop-Ends,
}

-- The synthetic order for what remains of a request.
abbrev pub resting : SimulatedOrderRequest → ℕ → SyntheticOrder
resting r size = record {
  instrument_id = r.instrument_id;
  side = r.side;
  price = r.limit_price;
  size = size;
  timestamp_ns = r.timestamp_ns;
}

-- The result of a request of `view`'s engine, and the view after it: the fills add up with what
-- remains, lie within the limit, were on offer, and are recorded as taken; what remains rests as the
-- engine's order, and then nothing within the limit is left on offer.
pub record IsOutcome (h : Historical) (r : SimulatedOrderRequest) (view : EngineView)
    (result : SimulatedOrderResult) (after : EngineView) : Type 0 where
  pub reserved : result.synthetic_order_id ≡ view.next_order_id
  pub requested : result.requested_size ≡ r.size
  pub total : result.filled_size + result.remaining_size ≡ r.size
  pub sums : sum_map fill_size_of result.fills ≡ result.filled_size
  pub each : All (IsFillOf r view.next_order_id) result.fills
  pub recorded : (p : ℤ) → taken r after p ≡ taken r view p + filled_at p result.fills
  pub offers : (p : ℤ) → filled_at p result.fills ≤ offered h r view p
  pub rest : after.own_orders ≡ (
      if ltb 0 result.remaining_size
      then insert view.next_order_id (resting r result.remaining_size) view.own_orders
      else view.own_orders)
  pub complete :
      (result.remaining_size ≡ 0)
      ⊎ ((p : ℤ) → (if within_limit r p then offered h r after p else 0) ≡ 0)

valid-IsRequest :
    (r : SimulatedOrderRequest) → has_valid_request r ≡ true → r.size < u64_mod → IsRequest r
unfolding has_valid_request
valid-IsRequest r h small = record {
  known = λ e. ground (arith, nat_beq_iff r.instrument_id 0);
  sided = has_side r.side (ground arith);
  sized = small;
}
  where
    has_side : (t : Side) → has_valid_side t ≡ true → (t ≡ Side.bid) ⊎ (t ≡ Side.ask)
    has_side Side.bid e = inl refl
    has_side Side.ask e = inr refl
    has_side Side.none e = unfold has_valid_side side_beq in absurd (ground arith)

rest_remaining-consumed :
    (r : SimulatedOrderRequest) (id i : ℕ) (s : Filling)
    → consumed_liquidity i (rest_remaining r id s) ≡ consumed_liquidity i s.view
unfolding rest_remaining add_synthetic_order_with_id consumed_liquidity
rest_remaining-consumed r id i s = elim (Bool-cases (ltb 0 s.remaining)) [
  | inl left ↦ rw left refl
  | inr nothing ↦ rw nothing refl
]

rest_remaining-own_orders :
    (r : SimulatedOrderRequest) (id : ℕ) (s : Filling)
    → (rest_remaining r id s).own_orders ≡ (
        if ltb 0 s.remaining
        then insert id (resting r s.remaining) s.view.own_orders
        else s.view.own_orders)
unfolding rest_remaining add_synthetic_order_with_id
rest_remaining-own_orders r id s = elim (Bool-cases (ltb 0 s.remaining)) [
  | inl left ↦ rw left refl
  | inr nothing ↦ rw nothing refl
]

-- The view with the next id given away.
abbrev reserved : EngineView → EngineView
reserved view = (reserve_synthetic_order_id view).1

consumed-reserved :
    (i : ℕ) (view : EngineView) → consumed_liquidity i (reserved view) ≡ consumed_liquidity i view
unfolding reserve_synthetic_order_id consumed_liquidity
consumed-reserved i view = refl

reserved-own_orders : (view : EngineView) → (reserved view).own_orders ≡ view.own_orders
unfolding reserve_synthetic_order_id
reserved-own_orders view = refl

start-IsFilled :
    (h : Historical) (r : SimulatedOrderRequest) (view : EngineView)
    → IsLadders (consumed_liquidity r.instrument_id view)
    → IsFilled h r view.next_order_id (reserved view) (start_filling r view)
unfolding start_filling
start-IsFilled h r view l = record {
  total = omega arith;
  sums = refl;
  each = tt;
  ladders = subst IsLadders (sym (consumed-reserved r.instrument_id view)) l;
  recorded = λ p. omega arith;
  offers = λ p. omega arith;
  kept = refl;
}

-- The result that the loop's variables give.
abbrev result_of : SimulatedOrderRequest → ℕ → Filling → SimulatedOrderResult
result_of r id s = record {
  synthetic_order_id = id;
  requested_size = r.size;
  filled_size = s.filled_size;
  remaining_size = s.remaining;
  fills = s.fills;
}

filled-IsOutcome :
    (h : Historical) (r : SimulatedOrderRequest) (view : EngineView) (s : Filling)
    → IsFilled h r view.next_order_id (reserved view) s
    → (s.remaining ≡ 0) ⊎ ((p : ℤ) → (if within_limit r p then offered h r s.view p else 0) ≡ 0)
    → IsOutcome h r view (result_of r view.next_order_id s) (rest_remaining r view.next_order_id s)
filled-IsOutcome h r view s c done =
    let after : EngineView = rest_remaining r view.next_order_id s in
    let before : (p : ℤ) → taken r (reserved view) p ≡ taken r view p =
      λ p. ap (volume_on (opposite r.side) p) (consumed-reserved r.instrument_id view) in
    let same : (p : ℤ) → taken r after p ≡ taken r s.view p = λ p.
      ap (volume_on (opposite r.side) p)
        (rest_remaining-consumed r view.next_order_id r.instrument_id s) in
    let orders : s.view.own_orders ≡ view.own_orders =
      ap (λ v. v.own_orders) c.kept ∙ reserved-own_orders view in
    record {
      reserved = refl;
      requested = refl;
      total = c.total;
      sums = c.sums;
      each = c.each;
      recorded = λ p. omega (arith, same p, before p, c.recorded p);
      offers = λ p. omega (arith, before p, c.offers p);
      rest = rest_remaining-own_orders r view.next_order_id s ∙ rw orders refl;
      complete = elim done [
        | inl filled ↦ inl filled
        | inr unseen ↦ inr (λ p. ground (arith, same p, unseen p))
      ];
    }

-- A valid request of a known engine always gets its result, with fuel above its size: the fills are
-- of positive size, within the limit, no more than was on offer at each price, and recorded as taken;
-- they add up to the filled size, and with what remains to the requested size. What remains rests
-- as an order of the engine under the reserved id, and if anything remains, nothing within the limit
-- is left on offer. The historical books are valid, what the engine has taken is a ladder, and no
-- volume on it reaches 2 ^ 64 with the request's size.
pub submit-IsOutcome :
    (fuel : ℕ) (h : Historical) (r : SimulatedOrderRequest) (views : EngineViews)
    (view : EngineView)
    → IsHistorical h
    → has_valid_request r ≡ true
    → find r.engine_id views ≡ some view
    → IsLadders (consumed_liquidity r.instrument_id view)
    → ((p : ℤ) → taken r view p + r.size < u64_mod)
    → r.size < fuel
    → (result : SimulatedOrderResult) × (after : EngineView) × (submit_limit_order_result fuel h r
          views
        ≡ some (result, insert r.engine_id after views))
      × IsOutcome h r view result after
unfolding submit_limit_order_result start_filling reserve_synthetic_order_id
submit-IsOutcome fuel h r views view valid ok found l room fuelled =
    let id = view.next_order_id in
    let same = consumed-reserved r.instrument_id view in
    let (s, run, c, done) =
      fill_loop-Ends h r id (reserved view)
        (valid-IsRequest r ok (omega (arith, room r.limit_price))) (λ p. rw same (room p)) fuel
        (start_filling r view) valid (start-IsFilled h r view l) fuelled in
    (
      result_of r id s,
      rest_remaining r id s,
      rw (ok, found, run) refl,
      filled-IsOutcome h r view s c done,
    )
