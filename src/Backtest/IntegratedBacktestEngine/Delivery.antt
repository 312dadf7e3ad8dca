-- ===== src/Backtest/IntegratedBacktestEngine/Delivery.antt =====
-- src/backtest/IntegratedBacktestEngine.cpp: the queues of the subscribers between publishing and
-- draining.
use backtester_lab.Base.{
  ℕ, ◌+◌, ◌<◌, ◌≡◌, refl, sym, ap, subst, List, [], ◌∷◌, ◌++◌, map, some, u64, arith, nat_eq,
  length, length-append, Option-cases, inl, inr,
}
use backtester_lab.Map.{find, insert}
use backtester_lab.Queue.Fifo.{contents, available}
use backtester_lab.Queue.Drain.{drain-total}
use backtester_lab.Messaging.Message.{MarketDataMessage}
use backtester_lab.Messaging.Publisher.{
  MarketDataPublisher, MarketDataSubscription, Subscribers, flush,
}
use backtester_lab.Messaging.Numbers.{publish_message}
use backtester_lab.Messaging.Delivery.{MessageQueue}
use backtester_lab.Messaging.Queues.{
  Every, Holds, insert-Every, flush-Holds, HasQueues, publish_message-HasQueues,
}
use backtester_lab.Backtest.IntegratedBacktestEngine.{
  IntegratedBacktestEngine, drain_each, publish_messages, deliver,
}

pub publish_messages-HasQueues :
    (n : ℕ) (ms : List MarketDataMessage) (p : MarketDataPublisher)
    → HasQueues n p
    → HasQueues (n + length ms) (publish_messages ms p).1
unfolding publish_messages
publish_messages-HasQueues n [] p h = subst (λ k. HasQueues k p) (omega arith) h
publish_messages-HasQueues n (m ∷ ms) p h =
    let e : n + 1 + length ms ≡ n + length (m ∷ ms) = omega arith in
    subst (λ k. HasQueues k (publish_messages (m ∷ ms) p).1) e
      (publish_messages-HasQueues (n + 1) ms (publish_message m p).1
        (publish_message-HasQueues n m p h))

available-le :
    (q : MessageQueue) → length (available q) + length q.producer_batch ≡ length (contents q)
unfolding contents
available-le q = sym (length-append (available q) q.producer_batch)

-- With fuel above the size of every queue the draining ends, and leaves the queues well-formed and
-- no larger.
drain_each-total :
    (fuel n : ℕ) (l : List MarketDataSubscription) (s : Subscribers)
    → Every (Holds n) s
    → n < fuel
    → (calls : List (ℕ × MarketDataMessage)) × (s' : Subscribers) × (drain_each fuel l s
        ≡ some (calls, s'))
      × Every (Holds n) s'
unfolding drain_each
drain_each-total fuel n [] s all h = ([], s, refl, all)
drain_each-total fuel n (x ∷ l) s all h = elim (Option-cases (find x.subscriber_id s)) [
  | inl missing ↦
      let (calls, s', run, after) = drain_each-total fuel n l s all h in
      (calls, s', rw (missing, drain_each) run, after)
  | inr (q, found) ↦
      let (valid, small) = all x.subscriber_id q found in
      let (q', drained, none_left, producer, valid') =
        drain-total fuel q valid (omega (arith, small, available-le q)) in
      let (calls, s', run, after) =
        drain_each-total fuel n l (insert x.subscriber_id q' s)
          (insert-Every (Holds n) x.subscriber_id q' s
            (
              valid',
              omega (
                arith,
                available-le q',
                available-le q,
                ap length none_left,
                ap length producer,
                small,
              ),
            )
            all)
          h in
      (
        map (λ m. (x.subscriber_id, m)) (available q) ++ calls,
        s',
        rw (found, drained, run, drain_each) refl,
        after,
      )
]

-- A delivery with fuel above the size of every queue ends. It changes the publisher's queues, the
-- number of delivered messages and the calls, and keeps the queues well-formed and no larger.
pub deliver-total :
    (fuel n : ℕ) (s : IntegratedBacktestEngine)
    → HasQueues n s.publisher
    → n < fuel
    → (delivered : ℕ) × (after : IntegratedBacktestEngine) × (deliver fuel s
        ≡ some (delivered, after))
      × HasQueues n after.publisher
      × (after.adapter ≡ s.adapter)
      × (after.config ≡ s.config)
      × (after.stats ≡ record s.stats {
        delivered_message_count = u64 (s.stats.delivered_message_count + delivered);
      })
      × (u64 (length after.calls) ≡ u64 (length s.calls + delivered))
unfolding deliver flush
deliver-total fuel n s h fuelled =
    let (calls, subscribers, run, after) =
      drain_each-total fuel n s.subscriptions (flush s.publisher).subscribers
        (flush-Holds n s.publisher h.queues) fuelled in
    (
      u64 (length calls),
      record s {
        publisher = record (flush s.publisher) { subscribers = subscribers };
        stats = record s.stats {
          delivered_message_count = u64 (s.stats.delivered_message_count + u64 (length calls));
        };
        calls = s.calls ++ calls;
      },
      rw (run, deliver) refl,
      record {
        publisher = record { unique = h.publisher.unique; below = h.publisher.below };
        queues = after;
      },
      refl,
      refl,
      refl,
      omega (arith, length-append s.calls calls),
    )
