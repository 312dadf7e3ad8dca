-- ===== src/Messaging/Tests.antt =====
-- The theorems about src/messaging at inputs that meet their hypotheses.
use backtester_lab.Base.{
  some, ℕ, ◌≡◌, refl, List, [], ◌∷◌, arith, nat_eq, ◌++◌, ◌==◌, if◌then◌else◌,
}
use backtester_lab.Base.Int.{pos}
use backtester_lab.Domain.{Side}
use backtester_lab.Map.{find, insert}
use backtester_lab.Messaging.Message.{MarketDataMessage, instrument_of}
use backtester_lab.Messaging.Publisher.{MarketDataPublisher, subscribe, publish, subscriptions_of}
use backtester_lab.Messaging.GapDetector.{SequenceCheckStatus, observe}
use backtester_lab.Messaging.Delivery.{
  MessageQueue, IsPublisher, times, subscribe-IsPublisher, publish-delivers,
}
use backtester_lab.Queue.{new_queue}
use backtester_lab.Queue.Fifo.{contents}
use backtester_lab.Messaging.Numbers.{Checks, observe-Checks, publish_message, observe-missed}
use backtester_lab.Messaging.Continuity.{publish_each, IsContinuous, publish_each-IsContinuous}

abbrev message : ℕ → MarketDataMessage
message instrument_id = MarketDataMessage.trade (record {
  instrument_id = instrument_id;
  timestamp_ns = pos 100;
  seq_no = 0;
  price = pos 90;
  size = 5;
  aggressor_side = Side.bid;
})

abbrev messages : List MarketDataMessage
messages = message 7 ∷ message 8 ∷ message 7 ∷ []

-- The last number at instrument 7 is 3.
abbrev publisher : MarketDataPublisher
publisher = record {
  next_subscriber_id = 1;
  subscriber_count = 0;
  last_seq_no_by_instrument = (7, 3) ∷ [];
  subscribers_by_instrument = [];
  subscribers = [];
}

observe-missed_example :
    (observe (publish_message (message 7) publisher).0 ((7, 1) ∷ [])).0.status
    ≡ SequenceCheckStatus.gap
unfolding find instrument_of
observe-missed_example =
    observe-missed (message 7) publisher ((7, 1) ∷ []) (omega arith) (omega arith)

observe-Checks_example : Checks (message 7) ((7, 3) ∷ []) (observe (message 7) ((7, 3) ∷ []))
observe-Checks_example = observe-Checks (message 7) ((7, 3) ∷ [])

publisher-IsPublisher : IsPublisher publisher
unfolding find
publisher-IsPublisher = record { unique = λ i k. omega arith; below = λ i k h. ground arith }

-- The publisher after a subscription to instrument 7 with batches of 4.
abbrev subscribed : MarketDataPublisher
subscribed = (subscribe 7 4 publisher).1

subscribed-IsPublisher : IsPublisher subscribed
subscribed-IsPublisher = subscribe-IsPublisher 7 4 publisher publisher-IsPublisher (omega arith)

abbrev queue : MessageQueue
queue = record {
  batch_size = 4;
  nodes = [];
  producer_batch = [];
  consumer_batch = [];
  consumer_index = 0;
  enqueued_count = 0;
  dequeued_count = 0;
}

subscribed_test : find 1 subscribed.subscribers ≡ some queue
unfolding subscribe new_queue find insert
subscribed_test = refl

publish-delivers_example :
    (q' : MessageQueue) × (find 1 (publish (message 7) subscribed).subscribers ≡ some q')
    × (contents q' ≡ (
        if times 1 (subscriptions_of (instrument_of (message 7)) subscribed) == 0
        then contents queue
        else contents queue ++ (message 7 ∷ [])))
publish-delivers_example =
    publish-delivers (message 7) subscribed 1 queue subscribed-IsPublisher subscribed_test

-- The subscription is to instrument 7, and a message of instrument 8 comes between two of 7.
publish_each-IsContinuous_example :
    IsContinuous 1 messages subscribed queue ((7, 3) ∷ []) (publish_each messages subscribed)
unfolding subscribe new_queue
publish_each-IsContinuous_example =
    publish_each-IsContinuous messages subscribed 1 queue ((7, 3) ∷ []) subscribed-IsPublisher
      subscribed_test (λ i hears. refl)
