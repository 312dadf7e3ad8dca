-- ===== src/Messaging/Publisher.antt =====
-- src/messaging/MarketDataPublisher.{hpp,cpp}, and `push` and `flush` of MarketDataSubscriber.hpp.
-- A subscriber is shared with its owner, so its queue stands in a store, by the id of the
-- subscription that made it. The callback runs only in the owner's hands and is left out.
use backtester_lab.Base.{ℕ, ◌+◌, List, [], ◌∷◌, ◌++◌, Option, none, some, nat_eq, u64, length}
use backtester_lab.Map.{Map, find, insert}
use backtester_lab.Queue
use backtester_lab.Queue.{NonBlockingQueue, new_queue}
use backtester_lab.Messaging.Message.{
  MarketDataMessage, BookUpdate, BookSnapshot, Trade, instrument_of,
}

pub record MarketDataSubscription : Type 0 where
  pub subscriber_id : ℕ
  pub instrument_id : ℕ

abbrev pub Subscribers : Type 0
Subscribers = Map ℕ (NonBlockingQueue MarketDataMessage)

pub record MarketDataPublisher : Type 0 where
  pub next_subscriber_id : ℕ
  pub subscriber_count : ℕ
  pub last_seq_no_by_instrument : Map ℕ ℕ
  pub subscribers_by_instrument : Map ℕ (List MarketDataSubscription)
  pub subscribers : Subscribers

abbrev pub subscriptions_of : ℕ → MarketDataPublisher → List MarketDataSubscription
subscriptions_of instrument_id p = elim (find instrument_id p.subscribers_by_instrument) [
  | none ↦ []
  | some l ↦ l
]

-- `none` is the exception of the queue for batch size 0, raised when the id is already taken.
unfoldable pub subscribe :
    ℕ → ℕ → MarketDataPublisher → Option MarketDataSubscription × MarketDataPublisher
subscribe instrument_id queue_batch_size p =
    let p' = record p { next_subscriber_id = u64 (p.next_subscriber_id + 1) } in
    let subscription : MarketDataSubscription = record {
      subscriber_id = p.next_subscriber_id;
      instrument_id = instrument_id;
    } in
    elim (new_queue {A = MarketDataMessage} queue_batch_size) [
      | none ↦ (none, p')
      | some queue ↦ (
        some subscription,
        record p' {
          subscribers = insert p.next_subscriber_id queue p'.subscribers;
          subscribers_by_instrument =
              insert instrument_id (subscriptions_of instrument_id p' ++ (subscription ∷ []))
                p'.subscribers_by_instrument;
          subscriber_count = u64 (p'.subscriber_count + 1);
        },
      )
    ]

-- A step on the queue of one subscriber.
unfoldable pub update_subscriber :
    (NonBlockingQueue MarketDataMessage → NonBlockingQueue MarketDataMessage)
    → ℕ
    → Subscribers
    → Subscribers
update_subscriber f subscriber_id s = elim (find subscriber_id s) [
  | none ↦ s
  | some q ↦ insert subscriber_id (f q) s
]

-- The loop over the subscriptions of an instrument.
unfoldable pub update_all :
    (NonBlockingQueue MarketDataMessage → NonBlockingQueue MarketDataMessage)
    → List MarketDataSubscription
    → Subscribers
    → Subscribers
unfolding update_subscriber
update_all f [] s = s
update_all f (x ∷ xs) s = update_all f xs (update_subscriber f x.subscriber_id s)

unfoldable pub publish : MarketDataMessage → MarketDataPublisher → MarketDataPublisher
unfolding update_all
publish message p = elim (find (instrument_of message) p.subscribers_by_instrument) [
  | none ↦ p
  | some subscriptions ↦ record p {
    subscribers = update_all (Queue.push message) subscriptions p.subscribers;
  }
]

-- `last_seq_no_by_instrument_[instrument_id]`, which makes a 0 where there is none.
abbrev pub last_seq_no : ℕ → Map ℕ ℕ → ℕ
last_seq_no instrument_id m = elim (find instrument_id m) [ none ↦ 0 | some n ↦ n ]

unfoldable pub next_seq_no : ℕ → MarketDataPublisher → ℕ × MarketDataPublisher
next_seq_no instrument_id p =
    let n = u64 (last_seq_no instrument_id p.last_seq_no_by_instrument + 1) in
    (n, record p { last_seq_no_by_instrument = insert instrument_id n p.last_seq_no_by_instrument })

unfoldable pub publish_update : BookUpdate → MarketDataPublisher → ℕ × MarketDataPublisher
unfolding next_seq_no publish
publish_update update p =
    let numbered = next_seq_no update.instrument_id p in
    let message = MarketDataMessage.book_update (record update { seq_no = numbered.0 }) in
    (numbered.0, publish message numbered.1)

unfoldable pub publish_snapshot : BookSnapshot → MarketDataPublisher → ℕ × MarketDataPublisher
unfolding next_seq_no publish
publish_snapshot snapshot p =
    let numbered = next_seq_no snapshot.instrument_id p in
    let message = MarketDataMessage.book_snapshot (record snapshot { seq_no = numbered.0 }) in
    (numbered.0, publish message numbered.1)

unfoldable pub publish_trade : Trade → MarketDataPublisher → ℕ × MarketDataPublisher
unfolding next_seq_no publish
publish_trade trade p =
    let numbered = next_seq_no trade.instrument_id p in
    let message = MarketDataMessage.trade (record trade { seq_no = numbered.0 }) in
    (numbered.0, publish message numbered.1)

-- The loop of `flush` over all instruments.
unfoldable pub flush_all : Map ℕ (List MarketDataSubscription) → Subscribers → Subscribers
unfolding update_all
flush_all [] s = s
flush_all ((instrument_id, subscriptions) ∷ m) s =
    flush_all m (update_all Queue.flush subscriptions s)

unfoldable pub flush : MarketDataPublisher → MarketDataPublisher
unfolding flush_all
flush p = record p { subscribers = flush_all p.subscribers_by_instrument p.subscribers }

unfoldable pub subscriber_count_of : ℕ → MarketDataPublisher → ℕ
subscriber_count_of instrument_id p = length (subscriptions_of instrument_id p)
