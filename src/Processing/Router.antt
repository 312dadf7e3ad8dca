-- ===== src/Processing/Router.antt =====
-- src/processing/ShardedLobMarketDataEventProcessor.{hpp,cpp}: the router, which sends each event to the
-- worker of its instrument. A worker stands for the events that it is given, in order: its thread
-- applies them to its own BookManager. Snapshots are text output, of which the count is kept.
pub mod Routed
use backtester_lab.Base.{
  ℕ, ◌+◌, ◌-◌, ◌%◌, Bool, true, false, ◌||◌, ◌&&◌, not, List, [], ◌∷◌, ◌++◌, Option, none, some,
  if◌then◌else◌, leb, ◌==◌, nat_eq, u64,
}
use backtester_lab.Domain.{Action, MarketDataEvent, has_valid_resting_state}
use backtester_lab.Map.{Map, find, insert, erase, erase_if}

pub record RouterOrder : Type 0 where
  pub instrument_id : ℕ
  pub size : ℕ

-- `LobProcessorConfig`, without the mode of the writer.
pub record LobProcessorConfig : Type 0 where
  pub snapshot_interval_events : ℕ
  pub max_snapshots : ℕ

pub record Router : Type 0 where
  pub config : LobProcessorConfig
  pub worker_count : ℕ
  pub workers : ℕ → List MarketDataEvent
  pub router_orders : Map ℕ RouterOrder
  pub processed_count : ℕ
  pub router_unresolved_events : ℕ
  pub snapshot_count : ℕ
  pub finished : Bool

-- The constructor; `none` is the exception for no worker.
unfoldable pub new_router : ℕ → LobProcessorConfig → Option Router
new_router worker_count config =
    if worker_count == 0
    then none
    else some (record {
      config = config;
      worker_count = worker_count;
      workers = λ i. [];
      router_orders = [];
      processed_count = 0;
      router_unresolved_events = 0;
      snapshot_count = 0;
      finished = false;
    })

unfoldable pub worker_index : ℕ → Router → ℕ
worker_index instrument_id s = instrument_id % s.worker_count

-- `workers_[workerIndex(event.instrument_id)]->enqueue(event)`
unfoldable pub enqueue : MarketDataEvent → Router → Router
unfolding worker_index
enqueue event s = record s {
  workers = λ i.
      if worker_index event.instrument_id s == i then s.workers i ++ (event ∷ []) else s.workers i;
}

unfoldable pub resolve_instrument_id : MarketDataEvent → Router → ℕ
resolve_instrument_id event s =
    if not (event.instrument_id == 0)
    then event.instrument_id
    else if event.order_id == 0
    then 0
    else elim (find event.order_id s.router_orders) [ none ↦ 0 | some order ↦ order.instrument_id ]

unfoldable pub enqueue_full_cancel : ℕ → ℕ → MarketDataEvent → Router → Router
unfolding enqueue
enqueue_full_cancel instrument_id order_id source s =
    enqueue
      (record source {
        instrument_id = instrument_id;
        order_id = order_id;
        action = Action.cancel;
        size = 0;
      })
      s

unfoldable pub erase_router_orders_for_instrument : ℕ → Router → Router
erase_router_orders_for_instrument instrument_id s = record s {
  router_orders = erase_if (λ o. o.instrument_id == instrument_id) s.router_orders;
}

-- The case of an addition or a modification.
unfoldable pub route_order : MarketDataEvent → Router → Router
unfolding enqueue_full_cancel
route_order event s =
    if has_valid_resting_state event
    then (let moved : Router = elim (find event.order_id s.router_orders) [
      | none ↦ s
      | some order ↦
          if order.instrument_id == event.instrument_id
          then s
          else enqueue_full_cancel order.instrument_id event.order_id event s
    ] in
        record moved {
          router_orders =
              insert event.order_id
                (record { instrument_id = event.instrument_id; size = event.size })
                moved.router_orders;
        })
    else s

unfoldable pub route_cancel : MarketDataEvent → Router → Router
route_cancel event s = elim (find event.order_id s.router_orders) [
  | none ↦ s
  | some order ↦
      if (event.size == 0) || leb order.size event.size
      then record s { router_orders = erase event.order_id s.router_orders }
      else record s {
        router_orders =
            insert event.order_id (record order { size = order.size - event.size }) s.router_orders;
      }
]

-- The `switch` of `updateRouterAndDispatch`.
unfoldable pub update_router : Action → MarketDataEvent → Router → Router
unfolding route_order route_cancel erase_router_orders_for_instrument
update_router Action.add event s = route_order event s
update_router Action.modify event s = route_order event s
update_router Action.cancel event s = route_cancel event s
update_router Action.clear event s = erase_router_orders_for_instrument event.instrument_id s
update_router _ event s = s

unfoldable pub update_router_and_dispatch : MarketDataEvent → Router → Router
unfolding update_router enqueue
update_router_and_dispatch event s = enqueue event (update_router event.action event s)

unfoldable pub maybe_print_snapshot : Router → Router
maybe_print_snapshot s =
    if (s.config.snapshot_interval_events == 0) || leb s.config.max_snapshots s.snapshot_count
    then s
    else if not (s.processed_count % s.config.snapshot_interval_events == 0)
    then s
    else record s { snapshot_count = u64 (s.snapshot_count + 1) }

-- `none` is the exception after `finish`.
unfoldable pub process_market_data_event : MarketDataEvent → Router → Option Router
unfolding resolve_instrument_id update_router_and_dispatch maybe_print_snapshot
process_market_data_event event s =
    let counted = record s { processed_count = u64 (s.processed_count + 1) } in
    let instrument_id = resolve_instrument_id event counted in
    if s.finished
    then none
    else if instrument_id == 0
    then some (
        maybe_print_snapshot (record counted {
          router_unresolved_events = u64 (counted.router_unresolved_events + 1);
        }))
    else some (
        maybe_print_snapshot
          (update_router_and_dispatch (record event { instrument_id = instrument_id }) counted))

unfoldable pub finish : Router → Router
finish s = if s.finished then s else record s { finished = true }
