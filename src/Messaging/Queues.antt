-- ===== src/Messaging/Queues.antt =====
-- The queues of all subscribers of src/messaging/MarketDataPublisher.cpp: what publishing and flushing
-- do to each of them.
use backtester_lab.Base.{
  ℕ, ◌+◌, ◌≤◌, ◌≡◌, subst, List, [], ◌∷◌, none, some, arith, ◌==◌, nat_eq, nat_beq_iff, length,
  length-append, Bool-cases, Option-cases, inl, inr,
}
use backtester_lab.Map.{Map, find, insert}
use backtester_lab.Map.Laws.{find-insert}
use backtester_lab.Queue
use backtester_lab.Queue.{NonBlockingQueue}
use backtester_lab.Queue.Fifo.{contents, IsQueue, push-IsQueue, flush-IsQueue, contents-flush}
use backtester_lab.Messaging.Message.{MarketDataMessage, instrument_of}
use backtester_lab.Messaging.Publisher.{
  MarketDataPublisher, MarketDataSubscription, Subscribers, update_subscriber, update_all, publish,
  flush_all, flush, subscriptions_of, next_seq_no, publish_update, publish_snapshot, publish_trade,
}
use backtester_lab.Messaging.Numbers.{publish_message}
use backtester_lab.Messaging.Delivery.{MessageQueue, IsPublisher, publish-delivers, times}

-- A property of every queue in the store.
abbrev pub Every : (MessageQueue → Type 0) → Subscribers → Type 0
Every P s = (k : ℕ) (q : MessageQueue) → find k s ≡ some q → P q

-- A well-formed queue with at most `n` messages.
abbrev pub Holds : ℕ → MessageQueue → Type 0
Holds n q = IsQueue q × (length (contents q) ≤ n)

pub insert-Every :
    (P : MessageQueue → Type 0) (k : ℕ) (q : MessageQueue) (s : Subscribers)
    → P q
    → Every P s
    → Every P (insert k q s)
insert-Every P k q s new old j r h = elim (Bool-cases (k == j)) [
  | inl same ↦ let e : q ≡ r = ground (arith, find-insert j k q s) in subst P e new
  | inr other ↦ old j r (ground (arith, find-insert j k q s))
]

update_all-Every :
    (P : MessageQueue → Type 0) (f : MessageQueue → MessageQueue) (l : List MarketDataSubscription)
    (s : Subscribers)
    → ((q : MessageQueue) → P q → P (f q))
    → Every P s
    → Every P (update_all f l s)
unfolding update_all update_subscriber
update_all-Every P f [] s step all = all
update_all-Every P f (x ∷ l) s step all =
    update_all-Every P f l (update_subscriber f x.subscriber_id s) step
      (elim (Option-cases (find x.subscriber_id s)) [
        | inl missing ↦ rw (missing, update_subscriber) all
        | inr (q, found) ↦
            rw (found, update_subscriber)
              (insert-Every P x.subscriber_id (f q) s (step q (all x.subscriber_id q found)) all)
      ])

flush_all-Every :
    (P : MessageQueue → Type 0) (m : Map ℕ (List MarketDataSubscription)) (s : Subscribers)
    → ((q : MessageQueue) → P q → P (Queue.flush q))
    → Every P s
    → Every P (flush_all m s)
unfolding flush_all
flush_all-Every P [] s step all = all
flush_all-Every P ((i, l) ∷ m) s step all =
    flush_all-Every P m (update_all Queue.flush l s) step
      (update_all-Every P Queue.flush l s step all)

pub flush-Holds :
    (n : ℕ) (p : MarketDataPublisher)
    → Every (Holds n) p.subscribers
    → Every (Holds n) (flush p).subscribers
unfolding flush
flush-Holds n p all =
    flush_all-Every (Holds n) p.subscribers_by_instrument p.subscribers
      (λ q h. (flush-IsQueue q h.0, rw (contents-flush q) (h.1))) all

-- No publish makes a queue.
find-update_all_none :
    (f : MessageQueue → MessageQueue) (k : ℕ) (l : List MarketDataSubscription) (s : Subscribers)
    → find k s ≡ none
    → find k (update_all f l s) ≡ none
unfolding update_all update_subscriber
find-update_all_none f k [] s h = h
find-update_all_none f k (x ∷ l) s h =
    find-update_all_none f k l (update_subscriber f x.subscriber_id s)
      (elim (Option-cases (find x.subscriber_id s)) [
        | inl missing ↦ rw (missing, update_subscriber) h
        | inr (q, found) ↦
            rw (found, update_subscriber)
              (ground (
                arith,
                h,
                found,
                find-insert k x.subscriber_id (f q) s,
                nat_beq_iff x.subscriber_id k,
              ))
      ])

publish-Every :
    (P : MessageQueue → Type 0) (m : MarketDataMessage) (p : MarketDataPublisher)
    → ((q : MessageQueue) → P q → P (Queue.push m q))
    → Every P p.subscribers
    → Every P (publish m p).subscribers
unfolding publish
publish-Every P m p step all =
    elim (Option-cases (find (instrument_of m) p.subscribers_by_instrument)) [
      | inl missing ↦ rw (missing, publish) all
      | inr (l, stored) ↦
          rw (stored, publish) (update_all-Every P (Queue.push m) l p.subscribers step all)
    ]

find-publish_none :
    (m : MarketDataMessage) (p : MarketDataPublisher) (k : ℕ)
    → find k p.subscribers ≡ none
    → find k (publish m p).subscribers ≡ none
unfolding publish
find-publish_none m p k h =
    elim (Option-cases (find (instrument_of m) p.subscribers_by_instrument)) [
      | inl missing ↦ rw (missing, publish) h
      | inr (l, stored) ↦
          rw (stored, publish) (find-update_all_none (Queue.push m) k l p.subscribers h)
    ]

-- A publish adds one message to a queue at most.
publish-Holds :
    (n : ℕ) (m : MarketDataMessage) (p : MarketDataPublisher)
    → IsPublisher p
    → Every (Holds n) p.subscribers
    → Every (Holds (n + 1)) (publish m p).subscribers
publish-Holds n m p v all k q found = elim (Option-cases (find k p.subscribers)) [
  | inl missing ↦ absurd (ground (arith, found, find-publish_none m p k missing))
  | inr (old, stored) ↦
      let (new, at, is) = publish-delivers m p k old v stored in
      let same : new ≡ q = ground (arith, at, found) in
      let longer : length (contents new) ≤ n + 1 =
        elim (Bool-cases (times k (subscriptions_of (instrument_of m) p) == 0)) [
          | inl absent ↦ ground (arith, is, absent, (all k old stored).1)
          | inr listed ↦
              ground
                (arith, is, listed, (all k old stored).1, length-append (contents old) (m ∷ []))
        ] in
      (
        publish-Every (λ x. IsQueue x) m p (λ x y. push-IsQueue m x y) (λ j x h. (all j x h).0) k q
            found,
        rw⁻¹ same longer,
      )
]

pub publish-IsPublisher :
    (m : MarketDataMessage) (p : MarketDataPublisher) → IsPublisher p → IsPublisher (publish m p)
unfolding publish
publish-IsPublisher m p v =
    elim (Option-cases (find (instrument_of m) p.subscribers_by_instrument)) [
      | inl missing ↦ rw (missing, publish) v
      | inr (l, stored) ↦ rw (stored, publish) (record { unique = v.unique; below = v.below })
    ]

-- A publisher whose subscriptions are unique, and whose queues are well-formed, with at most `n`
-- messages each.
pub record HasQueues (n : ℕ) (p : MarketDataPublisher) : Type 0 where
  pub publisher : IsPublisher p
  pub queues : Every (Holds n) p.subscribers

-- A number given to an instrument changes neither subscriptions nor queues.
numbered-HasQueues :
    (n i : ℕ) (p : MarketDataPublisher) → HasQueues n p → HasQueues n (next_seq_no i p).1
unfolding next_seq_no
numbered-HasQueues n i p h = record {
  publisher = record { unique = h.publisher.unique; below = h.publisher.below };
  queues = h.queues;
}

sent-HasQueues :
    (n i : ℕ) (m : MarketDataMessage) (p : MarketDataPublisher)
    → HasQueues n p
    → HasQueues (n + 1) (publish m (next_seq_no i p).1)
sent-HasQueues n i m p h =
    let g = numbered-HasQueues n i p h in
    record {
      publisher = publish-IsPublisher m (next_seq_no i p).1 g.publisher;
      queues = publish-Holds n m (next_seq_no i p).1 g.publisher g.queues;
    }

pub publish_message-HasQueues :
    (n : ℕ) (m : MarketDataMessage) (p : MarketDataPublisher)
    → HasQueues n p
    → HasQueues (n + 1) (publish_message m p).1
unfolding publish_message publish_update publish_snapshot publish_trade
publish_message-HasQueues n (MarketDataMessage.book_update m) p h = sent-HasQueues n _ _ p h
publish_message-HasQueues n (MarketDataMessage.book_snapshot m) p h = sent-HasQueues n _ _ p h
publish_message-HasQueues n (MarketDataMessage.trade m) p h = sent-HasQueues n _ _ p h
