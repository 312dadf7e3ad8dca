-- ===== src/Processing/Tests.antt =====
-- The theorems about src/processing at inputs that meet their hypotheses.
use backtester_lab.Base.{◌≡◌, true, false, [], ◌∷◌, none, some, arith, ◌⊎◌, nat_eq}
use backtester_lab.Base.Int.{pos}
use backtester_lab.Domain.{Side, Action, MarketDataEvent}
use backtester_lab.Processing.Router.{Router, process_market_data_event}
use backtester_lab.Processing.Router.Routed.{IsRouter, process_market_data_event-IsRouter}

-- An addition of order 1 to instrument 7.
abbrev event : MarketDataEvent
event = record {
  timestamp = 100;
  ts_recv = 100;
  ts_event = 100;
  order_id = 1;
  side = Side.bid;
  price = pos 90;
  size = 5;
  action = Action.add;
  instrument_id = 7;
  source_file_id = 0;
  source_sequence = 1;
  line_number = 1;
}

-- Two workers; order 1 rests at instrument 4, and has to move.
abbrev router : Router
router = record {
  config = record { snapshot_interval_events = 1; max_snapshots = 1 };
  worker_count = 2;
  workers = λ i. [];
  router_orders = (1, record { instrument_id = 4; size = 5 }) ∷ [];
  processed_count = 1;
  router_unresolved_events = 0;
  snapshot_count = 0;
  finished = false;
}

router-IsRouter : IsRouter router
router-IsRouter = record {
  sharded = λ i. tt;
  known = ((λ h. omega (arith, h)), tt);
  snapshots = omega arith;
}

process_market_data_event-IsRouter_example :
    ((false ≡ true) × (process_market_data_event event router ≡ none))
    ⊎ ((false ≡ false)
        × (s' : Router) × (process_market_data_event event router ≡ some s')
        × IsRouter s')
process_market_data_event-IsRouter_example =
    process_market_data_event-IsRouter event router router-IsRouter
