-- ===== src/Messaging/Delivery.antt =====
-- What a published message does to the queues of the subscribers.
use backtester_lab.Base.{
  ℕ, ◌+◌, ◌≤◌, ◌<◌, ◌≡◌, refl, sym, subst, ◌∙◌, false, List, [], ◌∷◌, ◌++◌, none, some, arith, ◌==◌,
  nat_eq, nat_beq_iff, if◌then◌else◌, sum_map, sum_map-append, Bool-cases, Option-cases, inl, inr,
  u64_mod, u64-eq_of_lt,
}
use backtester_lab.Map.{Map, find, insert}
use backtester_lab.Map.Laws.{find-insert, find-insert_self}
use backtester_lab.Queue
use backtester_lab.Queue.{NonBlockingQueue, new_queue}
use backtester_lab.Queue.Fifo.{contents, contents-push}
use backtester_lab.Messaging.Message.{MarketDataMessage, instrument_of}
use backtester_lab.Messaging.Publisher.{
  MarketDataPublisher, MarketDataSubscription, Subscribers, subscriptions_of, update_subscriber,
  update_all, publish, subscribe,
}

abbrev pub MessageQueue : Type 0
MessageQueue = NonBlockingQueue MarketDataMessage

-- How often an id stands in a list of subscriptions.
abbrev pub times : ℕ → List MarketDataSubscription → ℕ
times k = sum_map (λ s. if s.subscriber_id == k then 1 else 0)

find-update_subscriber_self :
    (f : MessageQueue → MessageQueue) (k : ℕ) (q : MessageQueue) (s : Subscribers)
    → find k s ≡ some q
    → find k (update_subscriber f k s) ≡ some (f q)
unfolding update_subscriber
find-update_subscriber_self f k q s h = rw (h, update_subscriber) (find-insert_self k (f q) s)

find-update_subscriber_ne :
    (f : MessageQueue → MessageQueue) (j k : ℕ) (s : Subscribers)
    → (j == k) ≡ false
    → find k (update_subscriber f j s) ≡ find k s
unfolding update_subscriber
find-update_subscriber_ne f j k s other = elim (Option-cases (find j s)) [
  | inl missing ↦ rw (missing, update_subscriber) refl
  | inr (q, found) ↦ rw (found, update_subscriber) (ground (arith, other, find-insert k j (f q) s))
]

-- A subscriber whose id is not in the list keeps its queue.
find-update_all_ne :
    (f : MessageQueue → MessageQueue) (k : ℕ) (l : List MarketDataSubscription) (s : Subscribers)
    → times k l ≡ 0
    → find k (update_all f l s) ≡ find k s
unfolding update_all
find-update_all_ne f k [] s h = refl
find-update_all_ne f k (x ∷ l) s h =
    let other : (x.subscriber_id == k) ≡ false = ground arith in
    find-update_all_ne f k l (update_subscriber f x.subscriber_id s) (ground arith)
    ∙ find-update_subscriber_ne f x.subscriber_id k s other

-- A subscriber whose id stands once in the list takes one step.
find-update_all_once :
    (f : MessageQueue → MessageQueue) (k : ℕ) (q : MessageQueue) (l : List MarketDataSubscription)
    (s : Subscribers)
    → times k l ≡ 1
    → find k s ≡ some q
    → find k (update_all f l s) ≡ some (f q)
unfolding update_all
find-update_all_once f k q [] s h found = absurd (ground arith)
find-update_all_once f k q (x ∷ l) s h found = elim (Bool-cases (x.subscriber_id == k)) [
  | inl same ↦
      let e : x.subscriber_id ≡ k = (nat_beq_iff x.subscriber_id k).0 same in
      find-update_all_ne f k l (update_subscriber f x.subscriber_id s) (ground arith)
      ∙ subst (λ j. find k (update_subscriber f j s) ≡ some (f q)) (sym e)
          (find-update_subscriber_self f k q s found)
  | inr other ↦
      find-update_all_once f k q l (update_subscriber f x.subscriber_id s) (ground arith)
        (find-update_subscriber_ne f x.subscriber_id k s other ∙ found)
]

-- No subscription stands twice at an instrument, and the ids in use are below the next one.
pub record IsPublisher (p : MarketDataPublisher) : Type 0 where
  pub unique : (i k : ℕ) → times k (subscriptions_of i p) ≤ 1
  pub below : (i k : ℕ) → 0 < times k (subscriptions_of i p) → k < p.next_subscriber_id

delivered :
    (m : MarketDataMessage) (k : ℕ) (q : MessageQueue) (l : List MarketDataSubscription)
    (s : Subscribers)
    → times k l ≤ 1
    → find k s ≡ some q
    → (q' : MessageQueue) × (find k (update_all (Queue.push m) l s) ≡ some q')
      × (contents q' ≡ (if times k l == 0 then contents q else contents q ++ (m ∷ [])))
delivered m k q l s most found = elim (Bool-cases (times k l == 0)) [
  | inl absent ↦
      let never : times k l ≡ 0 = (nat_beq_iff (times k l) 0).0 absent in
      (q, find-update_all_ne (Queue.push m) k l s never ∙ found, rw absent refl)
  | inr listed ↦
      let once : times k l ≡ 1 = ground (arith, most, listed, nat_beq_iff (times k l) 0) in
      (
        Queue.push m q,
        find-update_all_once (Queue.push m) k q l s once found,
        rw listed (contents-push m q),
      )
]

-- A published message goes to the end of the queue of each subscriber of its instrument, once, and
-- to no other queue, while no subscription stands twice at an instrument.
pub publish-delivers :
    (m : MarketDataMessage) (p : MarketDataPublisher) (k : ℕ) (q : MessageQueue)
    → IsPublisher p
    → find k p.subscribers ≡ some q
    → (q' : MessageQueue) × (find k (publish m p).subscribers ≡ some q')
      × (contents q' ≡ (
          if times k (subscriptions_of (instrument_of m) p) == 0
          then contents q
          else contents q ++ (m ∷ [])))
unfolding publish
publish-delivers m p k q v found =
    elim (Option-cases (find (instrument_of m) p.subscribers_by_instrument)) [
      | inl missing ↦ rw (missing, publish, subscriptions_of) (q, found, refl)
      | inr (l, stored) ↦
          let most : times k l ≤ 1 = ground (arith, stored, v.unique (instrument_of m) k) in
          rw (stored, publish, subscriptions_of) (delivered m k q l p.subscribers most found)
    ]

abbrev listed : ℕ → Map ℕ (List MarketDataSubscription) → List MarketDataSubscription
listed i m = elim (find i m) [ none ↦ [] | some l ↦ l ]

abbrev counted : ℕ → MarketDataSubscription → ℕ
counted k s = if s.subscriber_id == k then 1 else 0

times-snoc :
    (k : ℕ) (x : MarketDataSubscription) (l : List MarketDataSubscription)
    → times k (l ++ (x ∷ [])) ≡ times k l + counted k x
times-snoc k x l = omega (arith, sum_map-append (counted k) l (x ∷ []))

times-listed :
    (i j k : ℕ) (x : MarketDataSubscription) (m : Map ℕ (List MarketDataSubscription))
    → times k (listed j (insert i (listed i m ++ (x ∷ [])) m))
      ≡ times k (listed j m) + (if i == j then counted k x else 0)
times-listed i j k x m = elim (Bool-cases (i == j)) [
  | inr other ↦
      let at : listed j (insert i (listed i m ++ (x ∷ [])) m) ≡ listed j m =
        ground (arith, find-insert j i (listed i m ++ (x ∷ [])) m) in
      rw (at, other) (omega arith)
  | inl same ↦
      let at : listed j (insert i (listed i m ++ (x ∷ [])) m) ≡ listed i m ++ (x ∷ []) =
        ground (arith, find-insert j i (listed i m ++ (x ∷ [])) m) in
      rw (at, same)
        (subst (λ t. times k (listed i m ++ (x ∷ [])) ≡ times k (listed t m) + counted k x)
          ((nat_beq_iff i j).0 same) (times-snoc k x (listed i m)))
]

-- A subscription takes a new id, so no subscription stands twice at an instrument, while the ids
-- stay below 2 ^ 64.
pub subscribe-IsPublisher :
    (i n : ℕ) (p : MarketDataPublisher)
    → IsPublisher p
    → p.next_subscriber_id + 1 < u64_mod
    → IsPublisher (subscribe i n p).1
unfolding subscribe
subscribe-IsPublisher i n p v ids = elim (Option-cases (new_queue {A = MarketDataMessage} n)) [
  | inl refused ↦
      rw (refused, subscribe)
        (record { unique = v.unique; below = λ j k h. omega (arith, v.below j k h) })
  | inr (q, made) ↦
      let x : MarketDataSubscription = record {
        subscriber_id = p.next_subscriber_id;
        instrument_id = i;
      } in
      rw (made, subscribe)
        (record {
          unique = λ j k.
              rw (times-listed i j k x p.subscribers_by_instrument)
                (ground (arith, v.unique j k, v.below j k, nat_beq_iff p.next_subscriber_id k));
          below = λ j k h.
              let total = times-listed i j k x p.subscribers_by_instrument in
              ground (
                arith,
                total,
                h,
                v.below j k,
                nat_beq_iff p.next_subscriber_id k,
                u64-eq_of_lt (p.next_subscriber_id + 1) ids,
              );
        })
]
