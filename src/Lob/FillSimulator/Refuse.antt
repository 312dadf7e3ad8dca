-- ===== src/Lob/FillSimulator/Refuse.antt =====
-- src/lob/FillSimulator.cpp: which requests `submitLimitOrderResult` takes, and which it refuses.
use backtester_lab.Base.{
  ℕ, ◌+◌, ◌<◌, ◌≡◌, ◌≢◌, ◌↔◌, ◌⊎◌, refl, sym, ◌∙◌, true, [], some, arith, nat_eq, nat_beq_iff,
  u64_mod, Bool-cases, Option-cases, inl, inr,
}
use backtester_lab.Base.Int.{ℤ, int_eq, int_beq_iff, int64_max}
use backtester_lab.Domain.{Side, has_valid_side, has_valid_price, side_beq}
use backtester_lab.Map.{find, insert}
use backtester_lab.Sides.Laws.{IsLadders}
use backtester_lab.Lob.Historical.{Historical}
use backtester_lab.Lob.Historical.Valid.{IsHistorical}
use backtester_lab.Lob.EngineView.{EngineView, consumed_liquidity}
use backtester_lab.Lob.FillSimulator.{
  SimulatedOrderRequest, SimulatedOrderResult, EngineViews, has_valid_request, no_result,
  submit_limit_order_result,
}
use backtester_lab.Lob.FillSimulator.Fills.{taken}
use backtester_lab.Lob.FillSimulator.Submit.{submit-IsOutcome}

-- A request names an instrument and a side, its price is defined, and its size is above 0.
pub record IsValidRequest (r : SimulatedOrderRequest) : Type 0 where
  pub instrument : r.instrument_id ≢ 0
  pub sided : (r.side ≡ Side.bid) ⊎ (r.side ≡ Side.ask)
  pub priced : r.limit_price ≢ int64_max
  pub sized : 0 < r.size

has_valid_side_lem : (t : Side) → (has_valid_side t ≡ true) ↔ ((t ≡ Side.bid) ⊎ (t ≡ Side.ask))
unfolding has_valid_side side_beq
has_valid_side_lem Side.bid = (λ e. inl refl, λ e. refl)
has_valid_side_lem Side.ask = (λ e. inr refl, λ e. refl)
has_valid_side_lem Side.none = (λ e. absurd (ground arith), λ e. absurd (ground arith))

has_valid_request_lem :
    (r : SimulatedOrderRequest) → (has_valid_request r ≡ true) ↔ IsValidRequest r
unfolding has_valid_request has_valid_price
has_valid_request_lem r = (
  λ valid. record {
    instrument = λ e. ground (arith, nat_beq_iff r.instrument_id 0);
    sided = (has_valid_side_lem r.side).0 (ground arith);
    priced = λ e. ground (arith, int_beq_iff r.limit_price int64_max);
    sized = ground arith;
  },
  λ v. ground (
    arith,
    nat_beq_iff r.instrument_id 0,
    v.instrument,
    (has_valid_side_lem r.side).1 v.sided,
    int_beq_iff r.limit_price int64_max,
    v.priced,
    v.sized,
  ),
)

-- A request can be taken: it is valid, and its engine has a view.
abbrev pub CanSubmit : SimulatedOrderRequest → EngineViews → Type 0
CanSubmit r views = IsValidRequest r × (view : EngineView) × (find r.engine_id views ≡ some view)

-- Whether a call takes a request, as its caller sees it: by the id of the result.
pub record IsGuarded (r : SimulatedOrderRequest) (views after : EngineViews)
    (result : SimulatedOrderResult) : Type 0 where
  pub taken : (result.synthetic_order_id ≢ 0) ↔ CanSubmit r views
  pub refused :
      result.synthetic_order_id ≡ 0
      → (after ≡ views)
        × (result.requested_size ≡ r.size)
        × (result.filled_size ≡ 0)
        × (result.remaining_size ≡ 0)
        × (result.fills ≡ [])

refuse-IsGuarded :
    (r : SimulatedOrderRequest) (views : EngineViews)
    → (CanSubmit r views → ⊥)
    → IsGuarded r views views (no_result r)
refuse-IsGuarded r views never = record {
  taken = (λ other. absurd (other refl), λ can. absurd (never can));
  refused = λ e. (refl, refl, refl, refl, refl);
}

-- Every call returns, and its result has an id other than 0 exactly if the request names an
-- instrument and a side, has a defined price and a size above 0, and is of an engine with a view. A
-- result with the id 0 has no fill, and changes no view. The fuel is above the size, the historical
-- books are valid, and where the engine has a view, its next id is not 0, what it has taken is a
-- ladder, and no volume on it reaches 2 ^ 64 with the request's size.
pub submit-IsGuarded :
    (fuel : ℕ) (h : Historical) (r : SimulatedOrderRequest) (views : EngineViews)
    → IsHistorical h
    → ((view : EngineView)
        → find r.engine_id views ≡ some view
        → (view.next_order_id ≢ 0)
          × IsLadders (consumed_liquidity r.instrument_id view)
          × ((p : ℤ) → taken r view p + r.size < u64_mod))
    → r.size < fuel
    → (result : SimulatedOrderResult) × (after : EngineViews) × (submit_limit_order_result fuel h r
          views
        ≡ some (result, after))
      × IsGuarded r views after result
unfolding submit_limit_order_result
submit-IsGuarded fuel h r views valid ready fuelled = elim (Bool-cases (has_valid_request r)) [
  | inr invalid ↦ (
    no_result r,
    views,
    rw (invalid, submit_limit_order_result) refl,
    refuse-IsGuarded r views (λ can. ground (arith, invalid, (has_valid_request_lem r).1 can.0)),
  )
  | inl ok ↦ elim (Option-cases (find r.engine_id views)) [
    | inl unknown ↦ (
      no_result r,
      views,
      rw (ok, unknown, submit_limit_order_result) refl,
      refuse-IsGuarded r views (λ can. ground (arith, unknown, can.2)),
    )
    | inr (view, found) ↦
        let (named, ladders, room) = ready view found in
        let (result, after, run, outcome) =
          submit-IsOutcome fuel h r views view valid ok found ladders room fuelled in
        (
          result,
          insert r.engine_id after views,
          run,
          record {
            taken = (
              λ other. ((has_valid_request_lem r).0 ok, view, found),
              λ can e. named (sym outcome.reserved ∙ e),
            );
            refused = λ e. absurd (named (sym outcome.reserved ∙ e));
          },
        )
  ]
]
