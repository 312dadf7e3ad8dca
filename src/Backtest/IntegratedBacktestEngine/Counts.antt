-- ===== src/Backtest/IntegratedBacktestEngine/Counts.antt =====
-- src/backtest/IntegratedBacktestEngine.cpp: the statistics of a run against what happened in it.
use backtester_lab.Base.{
  ℕ, ◌+◌, ◌<◌, ◌≤◌, ◌≡◌, refl, ◌∙◌, true, false, List, some, arith, u64, u64_mod, length,
  Bool-cases, nat_eq, inl, inr, ◌⊎◌,
}
use backtester_lab.Domain.{MarketDataEvent}
use backtester_lab.Messaging.Message.{MarketDataMessage}
use backtester_lab.Backtest.MarketDataEventAdapter
use backtester_lab.Backtest.MarketDataEventAdapter.{MarketDataEventAdapter, new_adapter, accepts}
use backtester_lab.Backtest.MarketDataEventAdapter.Process.{process-IsProcessed}
use backtester_lab.Backtest.IntegratedBacktestEngine.{
  IntegratedBacktestEngine, IntegratedBacktestEventResult, count_input, max_events_reached,
  publish_accepted, first_result, skip_by_max_events, skip_by_filter, deliver, process_event, run,
}
use backtester_lab.Messaging.Queues.{HasQueues}
use backtester_lab.Backtest.IntegratedBacktestEngine.Delivery.{
  publish_messages-HasQueues, deliver-total,
}

-- The engine with `pending` inputs that are counted and not yet dealt with, and at most `n` messages in
-- each queue: every other input is accepted or skipped for one reason, the adapter counts the same
-- events, the limit is kept, and the delivered messages are the calls of the callbacks.
pub record IsEngine (pending n : ℕ) (s : IntegratedBacktestEngine) : Type 0 where
  pub queues : HasQueues n s.publisher
  pub inputs :
      s.stats.input_event_count
      ≡ s.stats.accepted_event_count
        + (s.stats.skipped_by_filter_count + s.stats.skipped_by_max_events_count)
        + pending
  pub small : s.stats.input_event_count < u64_mod
  pub adapter : s.adapter.accepted_event_count ≡ s.stats.accepted_event_count
  pub limit : (s.config.max_events ≡ 0) ⊎ (s.stats.accepted_event_count ≤ s.config.max_events)
  pub delivered : u64 (length s.calls) ≡ s.stats.delivered_message_count
  pub violations : s.stats.chronological_violations ≤ s.stats.input_event_count

count_input-IsEngine :
    (e : MarketDataEvent) (n : ℕ) (s : IntegratedBacktestEngine)
    → IsEngine 0 n s
    → s.stats.input_event_count + 1 < u64_mod
    → IsEngine 1 n (count_input e s).1
unfolding count_input
count_input-IsEngine e n s v fits = record {
  queues = v.queues;
  inputs = ground (arith, v.inputs, fits);
  small = ground (arith, fits);
  adapter = v.adapter;
  limit = v.limit;
  delivered = v.delivered;
  violations = ground (arith, v.violations, fits);
}

-- The engine after an input that is skipped, for either reason.
skipped_by_max-IsEngine :
    (n : ℕ) (s : IntegratedBacktestEngine) → IsEngine 1 n s → IsEngine 0 n (skip_by_max_events s)
skipped_by_max-IsEngine n s v = record {
  queues = v.queues;
  inputs = omega (arith, v.inputs, v.small);
  small = v.small;
  adapter = v.adapter;
  limit = v.limit;
  delivered = v.delivered;
  violations = v.violations;
}

skipped_by_filter-IsEngine :
    (n : ℕ) (a : MarketDataEventAdapter) (s : IntegratedBacktestEngine)
    → IsEngine 1 n s
    → a.accepted_event_count ≡ s.adapter.accepted_event_count
    → IsEngine 0 n (skip_by_filter (record s { adapter = a }))
skipped_by_filter-IsEngine n a s v same = record {
  queues = v.queues;
  inputs = omega (arith, v.inputs, v.small);
  small = v.small;
  adapter = same ∙ v.adapter;
  limit = v.limit;
  delivered = v.delivered;
  violations = v.violations;
}

accepted-IsEngine :
    (n : ℕ) (a : MarketDataEventAdapter) (ms : List MarketDataMessage)
    (s : IntegratedBacktestEngine)
    → IsEngine 1 n s
    → a.accepted_event_count ≡ u64 (s.adapter.accepted_event_count + 1)
    → max_events_reached s ≡ false
    → IsEngine 0 (n + length ms) (publish_accepted ms (record s { adapter = a })).1
unfolding publish_accepted max_events_reached
accepted-IsEngine n a ms s v count below = record {
  queues = publish_messages-HasQueues n ms s.publisher v.queues;
  inputs = omega (arith, v.inputs, v.small);
  small = v.small;
  adapter = ground (arith, count, v.adapter);
  limit = elim v.limit [
    | inl unlimited ↦ inl unlimited
    | inr kept ↦ ground (arith, kept, below, v.inputs, v.small)
  ];
  delivered = v.delivered;
  violations = v.violations;
}

pub deliver-IsEngine :
    (fuel n : ℕ) (s : IntegratedBacktestEngine)
    → IsEngine 0 n s
    → n < fuel
    → (delivered : ℕ) × (after : IntegratedBacktestEngine) × (deliver fuel s
        ≡ some (delivered, after))
      × IsEngine 0 n after
      × (after.stats.input_event_count ≡ s.stats.input_event_count)
      × (after.config ≡ s.config)
deliver-IsEngine fuel n s v fuelled =
    let (delivered, after, run, queues, adapter, config, stats, calls) =
      deliver-total fuel n s v.queues fuelled in
    (
      delivered,
      after,
      run,
      record {
        queues = queues;
        inputs = rw stats v.inputs;
        small = rw stats v.small;
        adapter = rw (stats, adapter) v.adapter;
        limit = rw (stats, config) v.limit;
        delivered = rw stats (omega (arith, calls, v.delivered));
        violations = rw stats v.violations;
      },
      rw stats refl,
      config,
    )

-- The step returned, and left a counted engine with at most two more messages in each queue.
abbrev pub Steps : ℕ → ℕ → MarketDataEvent → IntegratedBacktestEngine → Type 0
Steps fuel n e s =
    (result : IntegratedBacktestEventResult) × (after : IntegratedBacktestEngine) × (m : ℕ)
    × (process_event fuel e s ≡ some (result, after))
    × IsEngine 0 m after
    × (m ≤ n + 2)
    × (after.stats.input_event_count ≡ s.stats.input_event_count + 1)
    × (after.config ≡ s.config)

messages-le :
    (e : MarketDataEvent) (a : MarketDataEventAdapter)
    → length (MarketDataEventAdapter.process e a).0.messages ≤ 2
messages-le e a = let p = process-IsProcessed e a in ground (arith, p.flags, p.one_kind)

accepted-input :
    (ms : List MarketDataMessage) (s : IntegratedBacktestEngine)
    → (publish_accepted ms s).1.stats.input_event_count ≡ s.stats.input_event_count
unfolding publish_accepted
accepted-input ms s = refl

accepted-config :
    (ms : List MarketDataMessage) (s : IntegratedBacktestEngine)
    → (publish_accepted ms s).1.config ≡ s.config
unfolding publish_accepted
accepted-config ms s = refl

count_input-input :
    (e : MarketDataEvent) (s : IntegratedBacktestEngine)
    → s.stats.input_event_count + 1 < u64_mod
    → ((count_input e s).1.stats.input_event_count ≡ s.stats.input_event_count + 1)
      × ((count_input e s).1.config ≡ s.config)
      × ((count_input e s).1.adapter ≡ s.adapter)
unfolding count_input
count_input-input e s fits = (omega arith, refl, refl)

pub process_event-Steps :
    (fuel n : ℕ) (e : MarketDataEvent) (s : IntegratedBacktestEngine)
    → IsEngine 0 n s
    → s.stats.input_event_count + 1 < u64_mod
    → n + 2 < fuel
    → Steps fuel n e s
unfolding process_event
process_event-Steps fuel n e s v fits fuelled =
    let counted : IntegratedBacktestEngine = (count_input e s).1 in
    let adapted = MarketDataEventAdapter.process e counted.adapter in
    let c : IsEngine 1 n counted = count_input-IsEngine e n s v fits in
    let (input, config, _) = count_input-input e s fits in
    let p = process-IsProcessed e counted.adapter in
    let first : IntegratedBacktestEventResult = first_result (count_input e s).0 counted in
    elim (Bool-cases (max_events_reached counted)) [
      | inl reached ↦ (
        record first { skipped_by_max_events = true },
        skip_by_max_events counted,
        n,
        rw (reached, process_event) refl,
        skipped_by_max-IsEngine n counted c,
        omega arith,
        input,
        config,
      )
      | inr below ↦ elim (Bool-cases adapted.0.accepted) [
        | inr refused ↦ (
          record first { skipped_by_filter = true },
          skip_by_filter (record counted { adapter = adapted.1 }),
          n,
          rw (below, refused, process_event) refl,
          skipped_by_filter-IsEngine n adapted.1 counted c
              (ground (arith, p.count, p.accepted, refused)),
          omega arith,
          input,
          config,
        )
        | inl through ↦
            let ms = adapted.0.messages in
            let sent : IntegratedBacktestEngine =
              (publish_accepted ms (record counted { adapter = adapted.1 })).1 in
            let (delivered, after, run, done, inputs, configs) =
              deliver-IsEngine fuel (n + length ms) sent
                (accepted-IsEngine n adapted.1 ms counted c
                  (ground (arith, p.count, p.accepted, through)) below)
                (omega (arith, fuelled, messages-le e counted.adapter)) in
            let published : List MarketDataMessage =
              (publish_accepted ms (record counted { adapter = adapted.1 })).0 in
            (
              record first {
                processed = true;
                accepted_event_count = sent.stats.accepted_event_count;
                published_messages = published;
                published_message_count = length published;
                delivered_message_count = delivered;
              },
              after,
              n + length ms,
              rw (below, through, run, process_event) refl,
              done,
              omega (arith, messages-le e counted.adapter),
              inputs ∙ accepted-input ms (record counted { adapter = adapted.1 }) ∙ input,
              configs ∙ accepted-config ms (record counted { adapter = adapted.1 }) ∙ config,
            )
      ]
    ]
