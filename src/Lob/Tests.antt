-- ===== src/Lob/Tests.antt =====
-- The theorems about src/lob at inputs that meet their hypotheses.
use backtester_lab.Base.{
  ◌+◌, ◌<◌, true, some, u64_mod, [], ◌∷◌, nat_eq, refl, subst, ◌≡◌, ◌≢◌, arith,
}
use backtester_lab.Base.Int.{ℤ, pos, int_beq}
use backtester_lab.Domain.{
  has_valid_price, Side, Action, MarketDataEvent, has_valid_side, is_defined_price,
}
use backtester_lab.Map.{insert, find, sum_by}
use backtester_lab.Sides.{volume_on}
use backtester_lab.Lob.HistoricalLob
use backtester_lab.Lob.HistoricalLob.{empty_lob}
use backtester_lab.Lob.HistoricalLob.Preserve.{IsValidLob, empty-IsConsistent, apply-IsValidLob}
use backtester_lab.Lob.HistoricalLobStore
use backtester_lab.Lob.HistoricalLobStore.{HistoricalLobStore}
use backtester_lab.Sides.Laws.{IsLadders}
use backtester_lab.Levels.{volume, find_level}
use backtester_lab.Lob.Historical.{Historical, one_book, historical_snapshot}
use backtester_lab.Lob.Historical.Valid.{IsHistorical, sides_of, historical_snapshot-IsLadders}
use backtester_lab.Lob.FillSimulator.{
  SimulatedOrderRequest, SimulatedOrderResult, EngineViews, has_valid_request,
  submit_limit_order_result,
}
use backtester_lab.Lob.FillSimulator.Fills.{taken}
use backtester_lab.Lob.FillSimulator.Submit.{IsOutcome, submit-IsOutcome}
use backtester_lab.Lob.FillSimulator.Refuse.{IsGuarded, submit-IsGuarded}
use backtester_lab.Lob.FillSimulator.Offers.{IsTop}
use backtester_lab.Lob.SimulatedLob.Volumes.{visible_at, best-IsTop}
use backtester_lab.Lob.SimulatedLob
use backtester_lab.Levels.Order.{less, greater, less-StrictOrder, greater-StrictOrder}
use backtester_lab.Levels.Combine.{volume-lt}
use backtester_lab.Lob.EngineView.{
  EngineView, consumed_liquidity, SyntheticOrder, new_view, synthetic_book, add_synthetic_order,
  cancel_synthetic_order, has_valid_synthetic_order,
}
use backtester_lab.Lob.EngineView.Preserve.{
  IsView, new_view-IsView, add_synthetic_order-IsView, Cancels, cancel_synthetic_order-Cancels,
  cancel-add,
}

abbrev event : MarketDataEvent
event = record {
  timestamp = 100;
  ts_recv = 100;
  ts_event = 100;
  order_id = 1;
  side = Side.bid;
  price = pos 90;
  size = 5;
  action = Action.add;
  instrument_id = 7;
  source_file_id = 0;
  source_sequence = 1;
  line_number = 1;
}

apply-IsValidLob_example : IsValidLob (HistoricalLob.apply event empty_lob)
apply-IsValidLob_example =
    apply-IsValidLob event empty_lob empty-IsConsistent (unfold sum_by in omega arith)

abbrev order : SyntheticOrder
order = record {
  instrument_id = 7;
  side = Side.bid;
  price = pos 90;
  size = 5;
  timestamp_ns = pos 100;
}

add_synthetic_order-IsView_example : IsView (add_synthetic_order order (new_view 3)).1
add_synthetic_order-IsView_example =
    add_synthetic_order-IsView order (new_view 3) (new_view-IsView 3)
      (unfold new_view sum_by in omega arith) (unfold new_view in omega arith)

submitted-IsView : IsView (add_synthetic_order order (new_view 3)).1
submitted-IsView =
    add_synthetic_order-IsView order (new_view 3) (new_view-IsView 3)
      (unfold new_view sum_by in omega arith) (unfold new_view in omega arith)

cancel_synthetic_order-Cancels_example :
    Cancels 1
      (add_synthetic_order order (new_view 3)).1
      (cancel_synthetic_order 1 (add_synthetic_order order (new_view 3)).1)
cancel_synthetic_order-Cancels_example =
    cancel_synthetic_order-Cancels 1 (add_synthetic_order order (new_view 3)).1 submitted-IsView

order-one : (add_synthetic_order order (new_view 3)).0 ≡ 1
unfolding add_synthetic_order new_view has_valid_synthetic_order has_valid_side is_defined_price
    int_beq
order-one = refl

order-accepted : (add_synthetic_order order (new_view 3)).0 ≢ 0
order-accepted h = omega (arith, order-one)

cancel-add_example :
    (let r = add_synthetic_order order (new_view 3) in
      volume_on Side.bid (pos 90) (synthetic_book 7 (cancel_synthetic_order r.0 r.1))
      ≡ volume_on Side.bid (pos 90) (synthetic_book 7 (new_view 3)))
cancel-add_example =
    cancel-add order (new_view 3) 7 Side.bid (pos 90) (new_view-IsView 3)
      (unfold new_view sum_by in omega arith) (unfold new_view in omega arith) order-accepted

-- A store that holds an empty book of instrument 7.
abbrev store : HistoricalLobStore
store = (7, record empty_lob { instrument_id = 7 }) ∷ []

-- A book with 5 bid at 90, and a sale of 8 at 85 or better by engine 3.
abbrev fed : Historical
fed = one_book (HistoricalLob.apply event empty_lob)

fed-IsHistorical : IsHistorical fed
unfolding IsHistorical
fed-IsHistorical =
    apply-IsValidLob event empty_lob empty-IsConsistent (unfold sum_by in omega arith)

abbrev sale : SimulatedOrderRequest
sale = record {
  engine_id = 3;
  instrument_id = 7;
  side = Side.ask;
  limit_price = pos 85;
  size = 8;
  timestamp_ns = pos 100;
}

abbrev views : EngineViews
views = (3, new_view 3) ∷ []

sale-valid : has_valid_request sale ≡ true
unfolding has_valid_request has_valid_side has_valid_price int_beq
sale-valid = refl

views-found : find 3 views ≡ some (new_view 3)
unfolding find
views-found = refl

nothing_taken : IsLadders (consumed_liquidity 7 (new_view 3))
unfolding consumed_liquidity new_view find
nothing_taken = record { bids = tt; asks = tt }

room_for_sale : (p : ℤ) → taken sale (new_view 3) p + 8 < u64_mod
unfolding consumed_liquidity new_view find volume_on volume find_level
room_for_sale p = omega arith

submit-IsOutcome_example :
    (result : SimulatedOrderResult) × (after : EngineView) × (submit_limit_order_result 9 fed sale
        views
      ≡ some (result, insert 3 after views))
    × IsOutcome fed sale (new_view 3) result after
submit-IsOutcome_example =
    submit-IsOutcome 9 fed sale views (new_view 3) fed-IsHistorical sale-valid views-found
      nothing_taken room_for_sale (omega arith)

first-named : (new_view 3).next_order_id ≢ 0
unfolding new_view
first-named h = omega (arith, h)

submit-IsGuarded_example :
    (result : SimulatedOrderResult) × (after : EngineViews) × (submit_limit_order_result 9 fed sale
        views
      ≡ some (result, after))
    × IsGuarded sale views after result
submit-IsGuarded_example =
    submit-IsGuarded 9 fed sale views fed-IsHistorical
      (λ view found.
        let e : new_view 3 ≡ view = ground (arith, views-found, found) in
        subst
          (λ v.
            (v.next_order_id ≢ 0)
            × IsLadders (consumed_liquidity 7 v)
            × ((p : ℤ) → taken sale v p + 8 < u64_mod))
          e (first-named, nothing_taken, room_for_sale))
      (omega arith)

no_own_orders : IsLadders (synthetic_book 7 (new_view 3))
unfolding synthetic_book new_view find
no_own_orders = record { bids = tt; asks = tt }

no_volume : (t : Side) (p : ℤ) → volume_on t p (synthetic_book 7 (new_view 3)) ≡ 0
unfolding synthetic_book new_view find volume_on volume find_level
no_volume t p = ground arith

fed-IsLadders : IsLadders (sides_of (historical_snapshot 7 fed))
fed-IsLadders = (historical_snapshot-IsLadders 7 fed fed-IsHistorical).1

bid_volume : (p : ℤ) → volume greater p (historical_snapshot 7 fed).bids < u64_mod
bid_volume p =
    volume-lt greater greater-StrictOrder p (historical_snapshot 7 fed).bids fed-IsLadders.bids

ask_volume : (p : ℤ) → volume less p (historical_snapshot 7 fed).asks < u64_mod
ask_volume p = volume-lt less less-StrictOrder p (historical_snapshot 7 fed).asks fed-IsLadders.asks

fed_room : (t : Side) (p : ℤ) → visible_at fed (new_view 3) 7 t p < u64_mod
unfolding volume_on
fed_room Side.bid p = omega (arith, bid_volume p, no_volume Side.bid p)
fed_room Side.ask p = omega (arith, ask_volume p, no_volume Side.ask p)
fed_room Side.none p = omega (arith, no_volume Side.none p)

best-IsTop_example :
    IsTop greater
      (visible_at fed (new_view 3) 7 Side.bid)
      (SimulatedLob.best_bid fed (new_view 3) 7)
    × IsTop less (visible_at fed (new_view 3) 7 Side.ask) (SimulatedLob.best_ask fed (new_view 3) 7)
best-IsTop_example =
    best-IsTop fed (new_view 3) 7 fed-IsHistorical nothing_taken no_own_orders fed_room
