-- ===== src/Backtest/IntegratedBacktestEngine/Runs.antt =====
-- src/backtest/IntegratedBacktestEngine.cpp: `run` over any events, from an engine with any
-- subscriptions.
use backtester_lab.Base.{
  nat_beq_iff, ℕ, ◌+◌, ◌*◌, ◌<◌, ◌≡◌, refl, ◌∙◌, subst, List, [], ◌∷◌, some, arith, u64_mod, length,
  Bool-cases, Option-cases, ◌==◌, nat_eq, inl, inr,
}
use backtester_lab.Domain.{MarketDataEvent}
use backtester_lab.Map.{find}
use backtester_lab.Queue.{new_queue}
use backtester_lab.Queue.Fifo.{contents, available}
use backtester_lab.Messaging.Publisher
use backtester_lab.Messaging.Publisher.{MarketDataPublisher}
use backtester_lab.Messaging.Delivery.{MessageQueue, subscribe-IsPublisher}
use backtester_lab.Messaging.Message.{MarketDataMessage}
use backtester_lab.Backtest.MarketDataEventAdapter.{new_adapter}
use backtester_lab.Backtest.IntegratedBacktestEngine.{
  IntegratedBacktestEngine, IntegratedBacktestConfig, IntegratedBacktestRunResult, new_engine,
  subscribe, process_events, finish, run,
}
use backtester_lab.Messaging.Queues.{HasQueues, Holds, insert-Every}
use backtester_lab.Backtest.IntegratedBacktestEngine.Counts.{
  IsEngine, deliver-IsEngine, process_event-Steps,
}

process_events-total :
    (fuel n : ℕ) (es : List MarketDataEvent) (s : IntegratedBacktestEngine)
    → IsEngine 0 n s
    → s.stats.input_event_count + length es < u64_mod
    → n + 2 * length es < fuel
    → (after : IntegratedBacktestEngine) × (m : ℕ) × (process_events fuel es s ≡ some after)
      × IsEngine 0 m after
      × (m < fuel)
      × (after.stats.input_event_count ≡ s.stats.input_event_count + length es)
unfolding process_events
process_events-total fuel n [] s v fits fuelled =
    (s, n, refl, v, omega (arith, fuelled), omega arith)
process_events-total fuel n (e ∷ es) s v fits fuelled =
    let (result, next, m, run, v', small, input, config) =
      process_event-Steps fuel n e s v (omega (arith, fits)) (omega (arith, fuelled)) in
    let (after, k, runs, done, less, inputs) =
      process_events-total fuel m es next v' (omega (arith, fits, input))
        (omega (arith, fuelled, small)) in
    (after, k, rw (run, process_events) runs, done, less, omega (arith, inputs, input))

-- A run over any events ends, with fuel above the messages in each queue and two more per event, and
-- has dealt with each event once: the inputs are the accepted events, those that the filter skipped
-- and those that the limit skipped, the limit is kept, and the delivered messages are the calls of
-- the callbacks. The engine is counted and its queues are well-formed before, and the inputs stay
-- below 2 ^ 64.
pub run-total :
    (fuel n : ℕ) (es : List MarketDataEvent) (s : IntegratedBacktestEngine)
    → IsEngine 0 n s
    → s.stats.input_event_count + length es < u64_mod
    → n + 2 * length es < fuel
    → (stats : IntegratedBacktestRunResult) × (after : IntegratedBacktestEngine) × (m : ℕ) × (run
          fuel es s
        ≡ some (stats, after))
      × (stats ≡ after.stats)
      × IsEngine 0 m after
      × (stats.input_event_count ≡ s.stats.input_event_count + length es)
unfolding run finish
run-total fuel n es s v fits fuelled =
    let (processed, m, runs, done, less, inputs) =
      process_events-total fuel n es s v fits fuelled in
    let (delivered, after, flushed, final, same, config) =
      deliver-IsEngine fuel m processed done less in
    (after.stats, after, m, rw (runs, flushed, run, finish) refl, refl, final, same ∙ inputs)

-- An engine that is built has nothing counted and no queue.
pub new_engine-IsEngine : (config : IntegratedBacktestConfig) → IsEngine 0 0 (new_engine config)
unfolding new_engine new_adapter find
new_engine-IsEngine config = record {
  queues = record {
    publisher = record { unique = λ i k. ground arith; below = λ i k h. ground arith };
    queues = λ k q h. absurd (ground arith);
  };
  inputs = omega arith;
  small = omega arith;
  adapter = refl;
  limit = ground arith;
  delivered = refl;
  violations = omega arith;
}

-- The queue that a subscription makes.
abbrev fresh_queue : ℕ → MessageQueue
fresh_queue size = record {
  batch_size = size;
  nodes = [];
  producer_batch = [];
  consumer_batch = [];
  consumer_index = 0;
  enqueued_count = 0;
  dequeued_count = 0;
}

new_queue-Holds : (n size : ℕ) (q : MessageQueue) → new_queue size ≡ some q → Holds n q
unfolding new_queue contents available
new_queue-Holds n size q made = elim (Bool-cases (size == 0)) [
  | inl zero_size ↦ absurd (ground (arith, made, zero_size))
  | inr positive ↦
      let same : fresh_queue size ≡ q = ground (arith, made, positive) in
      subst (Holds n) same (
        record { partial = ground (arith, positive, nat_beq_iff size 0); filled = tt },
        omega arith,
      )
]

subscribe-HasQueues :
    (i size n : ℕ) (p : MarketDataPublisher)
    → HasQueues n p
    → p.next_subscriber_id + 1 < u64_mod
    → HasQueues n (Publisher.subscribe i size p).1
unfolding Publisher.subscribe
subscribe-HasQueues i size n p h ids = record {
  publisher = subscribe-IsPublisher i size p h.publisher ids;
  queues = elim (Option-cases (new_queue {A = MarketDataMessage} size)) [
    | inl refused ↦ rw (refused, Publisher.subscribe) h.queues
    | inr (q, made) ↦
        rw (made, Publisher.subscribe)
          (insert-Every (Holds n) p.next_subscriber_id q p.subscribers
            (new_queue-Holds n size q made) h.queues)
  ];
}

-- A subscription keeps the engine counted, while the ids of subscribers stay below 2 ^ 64.
pub subscribe-IsEngine :
    (i n : ℕ) (s : IntegratedBacktestEngine)
    → IsEngine 0 n s
    → s.publisher.next_subscriber_id + 1 < u64_mod
    → IsEngine 0 n (subscribe i s).1
unfolding subscribe
subscribe-IsEngine i n s v ids =
    let size = s.config.subscriber_queue_batch_size in
    let queues = subscribe-HasQueues i size n s.publisher v.queues ids in
    elim (Option-cases (Publisher.subscribe i size s.publisher).0) [
      | inl refused ↦
          rw (refused, subscribe)
            (record {
              queues = queues;
              inputs = v.inputs;
              small = v.small;
              adapter = v.adapter;
              limit = v.limit;
              delivered = v.delivered;
              violations = v.violations;
            })
      | inr (subscription, made) ↦
          rw (made, subscribe)
            (record {
              queues = queues;
              inputs = v.inputs;
              small = v.small;
              adapter = v.adapter;
              limit = v.limit;
              delivered = v.delivered;
              violations = v.violations;
            })
    ]
