-- ===== src/Processing/Router/Routed.antt =====
-- src/processing/ShardedLobMarketDataEventProcessor.cpp: which worker gets which events.
use backtester_lab.Base.{
  ℕ, ◌+◌, ◌%◌, ◌≤◌, ◌≡◌, ◌≢◌, refl, subst, Bool, true, false, not, ◌||◌, [], ◌∷◌, none, some, arith,
  ◌==◌, nat_eq, nat_beq_iff, leb, u64, All, All-snoc, ◌⊎◌, Bool-cases, Option-cases, inl, inr,
}
use backtester_lab.Domain.{Action, MarketDataEvent, has_valid_resting_state}
use backtester_lab.Map.{Map, find, insert, erase, erase_if}
use backtester_lab.Processing.Router.{
  Router, RouterOrder, LobProcessorConfig, new_router, worker_index, enqueue, resolve_instrument_id,
  enqueue_full_cancel, erase_router_orders_for_instrument, route_order, route_cancel, update_router,
  update_router_and_dispatch, maybe_print_snapshot, process_market_data_event,
}

abbrev pub Known : ℕ × RouterOrder → Type 0
Known (k, o) = o.instrument_id ≢ 0

find-Known :
    (k : ℕ) (m : Map ℕ RouterOrder) (o : RouterOrder)
    → All Known m
    → find k m ≡ some o
    → o.instrument_id ≢ 0
unfolding find
find-Known k [] o all h = absurd (ground arith)
find-Known k ((j, w) ∷ m) o all h = elim (Bool-cases (j == k)) [
  | inl same ↦
      let found : w ≡ o = ground (arith, same, h) in
      subst (λ (x : RouterOrder). x.instrument_id ≢ 0) found all.0
  | inr other ↦ find-Known k m o all.1 (ground (arith, other, h))
]

insert-Known :
    (k : ℕ) (o : RouterOrder) (m : Map ℕ RouterOrder)
    → o.instrument_id ≢ 0
    → All Known m
    → All Known (insert k o m)
unfolding insert
insert-Known k o [] known all = (known, tt)
insert-Known k o ((j, w) ∷ m) known all = elim (Bool-cases (j == k)) [
  | inl same ↦ rw same (known, all.1)
  | inr other ↦ rw other (all.0, insert-Known k o m known all.1)
]

erase-Known : (k : ℕ) (m : Map ℕ RouterOrder) → All Known m → All Known (erase k m)
unfolding erase
erase-Known k [] all = tt
erase-Known k ((j, w) ∷ m) all = elim (Bool-cases (j == k)) [
  | inl same ↦ rw same all.1
  | inr other ↦ rw other (all.0, erase-Known k m all.1)
]

erase_if-Known :
    (p : RouterOrder → Bool) (m : Map ℕ RouterOrder) → All Known m → All Known (erase_if p m)
unfolding erase_if
erase_if-Known p [] all = tt
erase_if-Known p ((j, w) ∷ m) all = elim (Bool-cases (p w)) [
  | inl gone ↦ rw gone (erase_if-Known p m all.1)
  | inr kept ↦ rw kept (all.0, erase_if-Known p m all.1)
]

-- An event that a worker may get: it states an instrument, and the instrument is the worker's.
pub record IsFor (n worker : ℕ) (e : MarketDataEvent) : Type 0 where
  pub stated : e.instrument_id ≢ 0
  pub shard : e.instrument_id % n ≡ worker

-- Every worker has events of its own instruments only, the router knows the instrument of every order,
-- and the snapshots stay within their number.
pub record IsRouter (s : Router) : Type 0 where
  pub sharded : (i : ℕ) → All (IsFor s.worker_count i) (s.workers i)
  pub known : All Known s.router_orders
  pub snapshots : s.snapshot_count ≤ s.config.max_snapshots

enqueue-IsRouter :
    (e : MarketDataEvent) (s : Router) → IsRouter s → e.instrument_id ≢ 0 → IsRouter (enqueue e s)
unfolding enqueue worker_index
enqueue-IsRouter e s v stated = record {
  sharded = λ i. elim (Bool-cases (e.instrument_id % s.worker_count == i)) [
    | inl same ↦ rw same (
        All-snoc (IsFor s.worker_count i) (s.workers i) e (v.sharded i) (record {
          stated = stated;
          shard = (nat_beq_iff (e.instrument_id % s.worker_count) i).0 same;
        }))
    | inr other ↦ rw other (v.sharded i)
  ];
  known = v.known;
  snapshots = v.snapshots;
}

-- New orders of the router.
with_orders-IsRouter :
    (orders : Map ℕ RouterOrder) (s : Router)
    → IsRouter s
    → All Known orders
    → IsRouter (record s { router_orders = orders })
with_orders-IsRouter orders s v known = record {
  sharded = v.sharded;
  known = known;
  snapshots = v.snapshots;
}

cancel-IsRouter :
    (o : RouterOrder) (e : MarketDataEvent) (s : Router)
    → IsRouter s
    → o.instrument_id ≢ 0
    → IsRouter (enqueue_full_cancel o.instrument_id e.order_id e s)
unfolding enqueue_full_cancel
cancel-IsRouter o e s v known = enqueue-IsRouter _ s v known

cancel-orders :
    (o : RouterOrder) (e : MarketDataEvent) (s : Router)
    → (enqueue_full_cancel o.instrument_id e.order_id e s).router_orders ≡ s.router_orders
unfolding enqueue_full_cancel enqueue
cancel-orders o e s = refl

route_order-IsRouter :
    (e : MarketDataEvent) (s : Router)
    → IsRouter s
    → e.instrument_id ≢ 0
    → IsRouter (route_order e s)
unfolding route_order
route_order-IsRouter e s v stated = elim (Bool-cases (has_valid_resting_state e)) [
  | inr invalid ↦ rw invalid v
  | inl valid ↦
      let order : RouterOrder = record { instrument_id = e.instrument_id; size = e.size } in
      let placed : All Known (insert e.order_id order s.router_orders) =
        insert-Known e.order_id order s.router_orders stated v.known in
      elim (Option-cases (find e.order_id s.router_orders)) [
        | inl missing ↦ rw (valid, missing, route_order) (with_orders-IsRouter _ s v placed)
        | inr (o, found) ↦
            let known : o.instrument_id ≢ 0 =
              find-Known e.order_id s.router_orders o v.known found in
            elim (Bool-cases (o.instrument_id == e.instrument_id)) [
              | inl same ↦ rw (valid, found, same, route_order) (with_orders-IsRouter _ s v placed)
              | inr moved ↦
                  rw (valid, found, moved, route_order)
                    (with_orders-IsRouter _ (enqueue_full_cancel o.instrument_id e.order_id e s)
                      (cancel-IsRouter o e s v known)
                      (insert-Known e.order_id order _ stated (rw (cancel-orders o e s) v.known)))
            ]
      ]
]

route_cancel-IsRouter :
    (e : MarketDataEvent) (s : Router) → IsRouter s → IsRouter (route_cancel e s)
unfolding route_cancel
route_cancel-IsRouter e s v = elim (Option-cases (find e.order_id s.router_orders)) [
  | inl missing ↦ rw (missing, route_cancel) v
  | inr (o, found) ↦
      let known : o.instrument_id ≢ 0 = find-Known e.order_id s.router_orders o v.known found in
      elim (Bool-cases ((e.size == 0) || leb o.size e.size)) [
        | inl whole ↦
            rw (found, whole, route_cancel)
              (with_orders-IsRouter _ s v (erase-Known e.order_id s.router_orders v.known))
        | inr part ↦
            rw (found, part, route_cancel)
              (with_orders-IsRouter _ s v (insert-Known e.order_id _ s.router_orders known v.known))
      ]
]

update_router-IsRouter :
    (a : Action) (e : MarketDataEvent) (s : Router)
    → IsRouter s
    → e.instrument_id ≢ 0
    → IsRouter (update_router a e s)
unfolding update_router erase_router_orders_for_instrument
update_router-IsRouter Action.add e s v stated = route_order-IsRouter e s v stated
update_router-IsRouter Action.modify e s v stated = route_order-IsRouter e s v stated
update_router-IsRouter Action.cancel e s v stated = route_cancel-IsRouter e s v
update_router-IsRouter Action.clear e s v stated =
    with_orders-IsRouter _ s v
      (erase_if-Known (λ o. o.instrument_id == e.instrument_id) s.router_orders v.known)
update_router-IsRouter Action.trade e s v stated = v
update_router-IsRouter Action.fill e s v stated = v
update_router-IsRouter Action.none e s v stated = v

maybe_print_snapshot-IsRouter : (s : Router) → IsRouter s → IsRouter (maybe_print_snapshot s)
unfolding maybe_print_snapshot
maybe_print_snapshot-IsRouter s v =
    elim (Bool-cases
      ((s.config.snapshot_interval_events == 0) || leb s.config.max_snapshots s.snapshot_count)) [
        | inl stops ↦ rw stops v
        | inr room ↦
            elim (Bool-cases (not (s.processed_count % s.config.snapshot_interval_events == 0))) [
              | inl between ↦ rw (room, between) v
              | inr due ↦
                  rw (room, due)
                    (record {
                      sharded = v.sharded;
                      known = v.known;
                      snapshots = ground (arith, room);
                    })
            ]
      ]

-- A processor that is finished refuses every event. One that is not takes every event, and then each
-- worker still has only events that state an instrument of its own, the router knows the instrument
-- of each of its orders, and the snapshots stay within their number. The router is valid before.
pub process_market_data_event-IsRouter :
    (e : MarketDataEvent) (s : Router)
    → IsRouter s
    → ((s.finished ≡ true) × (process_market_data_event e s ≡ none))
      ⊎ ((s.finished ≡ false)
          × (s' : Router) × (process_market_data_event e s ≡ some s')
          × IsRouter s')
unfolding process_market_data_event update_router_and_dispatch
process_market_data_event-IsRouter e s v = elim (Bool-cases s.finished) [
  | inl done ↦ inl (done, rw done refl)
  | inr running ↦
      let counted : Router = record s { processed_count = u64 (s.processed_count + 1) } in
      let c : IsRouter counted = record {
        sharded = v.sharded;
        known = v.known;
        snapshots = v.snapshots;
      } in
      let id : ℕ = resolve_instrument_id e counted in
      elim (Bool-cases (id == 0)) [
        | inl unresolved ↦
            let skipped : Router = record counted {
              router_unresolved_events = u64 (counted.router_unresolved_events + 1);
            } in
            inr (
              running,
              maybe_print_snapshot skipped,
              rw (running, unresolved, process_market_data_event) refl,
              maybe_print_snapshot-IsRouter skipped
                  (record { sharded = v.sharded; known = v.known; snapshots = v.snapshots }),
            )
        | inr resolved ↦
            let stated : id ≢ 0 = λ h. ground (arith, resolved, nat_beq_iff id 0) in
            let routed : MarketDataEvent = record e { instrument_id = id } in
            let updated : Router = update_router e.action routed counted in
            inr (
              running,
              maybe_print_snapshot (enqueue routed updated),
              rw (running, resolved, process_market_data_event) refl,
              maybe_print_snapshot-IsRouter (enqueue routed updated) (
                  enqueue-IsRouter routed updated
                    (update_router-IsRouter e.action routed counted c stated) stated),
            )
      ]
]

-- A processor for any positive number of workers is built, and is valid; for none it is refused.
pub new_router-IsRouter :
    (n : ℕ) (config : LobProcessorConfig)
    → ((n ≡ 0) × (new_router n config ≡ none))
      ⊎ ((s : Router) × (new_router n config ≡ some s) × (s.worker_count ≡ n) × IsRouter s)
unfolding new_router
new_router-IsRouter n config = elim (Bool-cases (n == 0)) [
  | inl no_worker ↦ inl ((nat_beq_iff n 0).0 no_worker, rw no_worker refl)
  | inr some_worker ↦
      let built : Router = record {
        config = config;
        worker_count = n;
        workers = λ i. [];
        router_orders = [];
        processed_count = 0;
        router_unresolved_events = 0;
        snapshot_count = 0;
        finished = false;
      } in
      inr (
        built,
        rw some_worker refl,
        refl,
        record { sharded = λ i. tt; known = tt; snapshots = omega arith },
      )
]
