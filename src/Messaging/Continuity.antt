-- ===== src/Messaging/Continuity.antt =====
-- src/messaging: what a subscriber's queue gets from a publisher, and what the detector of gaps makes
-- of it.
use backtester_lab.Base.{
  ℕ, ◌≡◌, refl, sym, subst, ap, ◌∙◌, Bool, true, false, List, [], ◌∷◌, ◌++◌, some, none, map, arith,
  if◌then◌else◌, ◌==◌, nat_eq, nat_beq_iff, Option-cases, Bool-cases, inl, inr, All,
}
use mathlib.Core.List.{append_assoc, append-nil}
use backtester_lab.Map.{Map, find}
use backtester_lab.Map.Laws.{find-insert}
use backtester_lab.Queue.Fifo.{contents}
use backtester_lab.Messaging.Message.{MarketDataMessage, instrument_of, seq_no_of}
use backtester_lab.Messaging.Publisher.{
  MarketDataPublisher, last_seq_no, next_seq_no, publish, publish_update, publish_snapshot,
  publish_trade, MarketDataSubscription,
}
use backtester_lab.Messaging.GapDetector.{
  MarketDataGapDetector, SequenceCheckStatus, SequenceCheckResult, observe,
}
use backtester_lab.Messaging.Numbers.{
  publish_message, publish_message-Numbered, next_at, Checks, observe-Checks,
}
use backtester_lab.Messaging.Delivery.{MessageQueue, IsPublisher, times, publish-delivers}
use backtester_lab.Messaging.Queues.{publish-IsPublisher}

-- The calls on the publisher for a list of messages, in order.
unfoldable pub publish_each : List MarketDataMessage → MarketDataPublisher → MarketDataPublisher
publish_each [] p = p
publish_each (m ∷ ms) p = publish_each ms (publish_message m p).1

-- The detector's answers for a list of messages, in order.
unfoldable pub observe_each :
    List MarketDataMessage → MarketDataGapDetector → List SequenceCheckResult
observe_each [] d = []
observe_each (m ∷ ms) d = let seen = observe m d in seen.0 ∷ observe_each ms seen.1

abbrev pub Listing : Type 0
Listing = Map ℕ (List MarketDataSubscription)

-- The subscription `k` is not at an instrument.
abbrev pub is_deaf : ℕ → Listing → ℕ → Bool
is_deaf k l i = times k (elim (find i l) [ none ↦ [] | some x ↦ x ]) == 0

-- The messages of the instruments that a subscription is at.
abbrev pub heard : ℕ → Listing → List MarketDataMessage → List MarketDataMessage
heard k l [] = []
heard k l (m ∷ ms) = if is_deaf k l (instrument_of m) then heard k l ms else m ∷ heard k l ms

-- A message without its number.
abbrev pub unnumbered : MarketDataMessage → MarketDataMessage
unnumbered (MarketDataMessage.book_update m) =
    MarketDataMessage.book_update (record m { seq_no = 0 })
unnumbered (MarketDataMessage.book_snapshot m) =
    MarketDataMessage.book_snapshot (record m { seq_no = 0 })
unnumbered (MarketDataMessage.trade m) = MarketDataMessage.trade (record m { seq_no = 0 })

-- Publisher and detector count the same numbers at the instruments that a subscription is at.
abbrev pub Agree : ℕ → Listing → Map ℕ ℕ → MarketDataGapDetector → Type 0
Agree k l numbers d = (i : ℕ) → is_deaf k l i ≡ false → last_seq_no i numbers ≡ last_seq_no i d

-- What one call does to the queue of a subscription, and to the publisher.
record Sent (m : MarketDataMessage) (p : MarketDataPublisher) (k : ℕ) (q : MessageQueue)
    (message : MarketDataMessage) (after : MarketDataPublisher) : Type 0 where
  pub publisher : IsPublisher after
  pub listed : after.subscribers_by_instrument ≡ p.subscribers_by_instrument
  pub same : unnumbered message ≡ unnumbered m
  pub queue :
      (q' : MessageQueue) × (find k after.subscribers ≡ some q')
      × (contents q' ≡ (
          if is_deaf k p.subscribers_by_instrument (instrument_of m)
          then contents q
          else contents q ++ (message ∷ [])))

publish-listed :
    (m : MarketDataMessage) (p : MarketDataPublisher)
    → (publish m p).subscribers_by_instrument ≡ p.subscribers_by_instrument
unfolding publish
publish-listed m p = elim (Option-cases (find (instrument_of m) p.subscribers_by_instrument)) [
  | inl missing ↦ rw (missing, publish) refl
  | inr (l, found) ↦ rw (found, publish) refl
]

publish-Sent :
    (m message : MarketDataMessage) (p : MarketDataPublisher) (k : ℕ) (q : MessageQueue)
    (numbers : Map ℕ ℕ)
    → IsPublisher p
    → find k p.subscribers ≡ some q
    → unnumbered message ≡ unnumbered m
    → instrument_of message ≡ instrument_of m
    → Sent m p k q message (publish message (record p { last_seq_no_by_instrument = numbers }))
publish-Sent m message p k q numbers v found same place =
    let p1 : MarketDataPublisher = record p { last_seq_no_by_instrument = numbers } in
    let v1 : IsPublisher p1 = record { unique = v.unique; below = v.below } in
    let (q', at, is) = publish-delivers message p1 k q v1 found in
    record {
      publisher = publish-IsPublisher message p1 v1;
      listed = publish-listed message p1;
      same = same;
      queue = (
        q',
        at,
        subst
            (λ i. contents q' ≡ (
              if is_deaf k p.subscribers_by_instrument i
              then contents q
              else contents q ++ (message ∷ [])))
            place is,
      );
    }

publish_message-Sent :
    (m : MarketDataMessage) (p : MarketDataPublisher) (k : ℕ) (q : MessageQueue)
    → IsPublisher p
    → find k p.subscribers ≡ some q
    → Sent m p k q (publish_message m p).0 (publish_message m p).1
unfolding publish_message publish_update publish_snapshot publish_trade next_seq_no instrument_of
publish_message-Sent (MarketDataMessage.book_update m) p k q v found =
    publish-Sent (MarketDataMessage.book_update m) _ p k q _ v found refl refl
publish_message-Sent (MarketDataMessage.book_snapshot m) p k q v found =
    publish-Sent (MarketDataMessage.book_snapshot m) _ p k q _ v found refl refl
publish_message-Sent (MarketDataMessage.trade m) p k q v found =
    publish-Sent (MarketDataMessage.trade m) _ p k q _ v found refl refl

Agree-deaf :
    (m : MarketDataMessage) (p : MarketDataPublisher) (d : MarketDataGapDetector) (k : ℕ)
    (l : Listing)
    → Agree k l p.last_seq_no_by_instrument d
    → is_deaf k l (instrument_of m) ≡ true
    → Agree k l (publish_message m p).1.last_seq_no_by_instrument d
Agree-deaf m p d k l same deaf j hears =
    let i = instrument_of m in
    let numbers = p.last_seq_no_by_instrument in
    let other : (i == j) ≡ false = elim (Bool-cases (i == j)) [
      | inr other ↦ other
      | inl same ↦
          let e : i ≡ j = (nat_beq_iff i j).0 same in
          let heard : is_deaf k l i ≡ false = subst (λ x. is_deaf k l x ≡ false) (sym e) hears in
          absurd (ground (arith, deaf, heard))
    ] in
    ap (last_seq_no j) (publish_message-Numbered m p).2
    ∙ ground (arith, other, find-insert j i (next_at i numbers) numbers)
    ∙ same j hears

Agree-heard :
    (m : MarketDataMessage) (p : MarketDataPublisher) (d : MarketDataGapDetector) (k : ℕ)
    (l : Listing)
    → Agree k l p.last_seq_no_by_instrument d
    → is_deaf k l (instrument_of m) ≡ false
    → ((observe (publish_message m p).0 d).0.status ≡ SequenceCheckStatus.ok)
      × Agree k l
          (publish_message m p).1.last_seq_no_by_instrument
          (observe (publish_message m p).0 d).1
Agree-heard m p d k l same hears =
    let r = publish_message m p in
    let n = publish_message-Numbered m p in
    let c : Checks r.0 d (observe r.0 d) = observe-Checks r.0 d in
    let numbers = p.last_seq_no_by_instrument in
    let number : seq_no_of r.0 ≡ next_at (instrument_of r.0) d =
      ground (arith, n.0, n.1, same (instrument_of m) hears) in
    (
      c.is_ok.1 number,
      λ j at. rw (n.2) (
          ground (
            arith,
            number,
            n.0,
            n.1,
            c.after j,
            same j at,
            find-insert j (instrument_of m) (next_at (instrument_of m) numbers) numbers,
          )),
    )

-- The messages that a run of calls adds to the queue of a subscription.
pub record IsContinuous (k : ℕ) (ms : List MarketDataMessage) (p : MarketDataPublisher)
    (q : MessageQueue) (d : MarketDataGapDetector) (after : MarketDataPublisher) : Type 0 where
  pub added : List MarketDataMessage
  pub queue : MessageQueue
  pub stored : find k after.subscribers ≡ some queue
  pub extended : contents queue ≡ contents q ++ added
  pub complete : map unnumbered added ≡ map unnumbered (heard k p.subscribers_by_instrument ms)
  pub accepted : All (λ r. r.status ≡ SequenceCheckStatus.ok) (observe_each added d)

-- A run of calls adds to the queue of a subscriber the messages of its own instruments, in order, each
-- once and with its payload, and a detector that agrees with the publisher at these instruments finds
-- each of the messages in the queue ok: messages of other instruments make no gap, and neither does
-- a number that wraps at 2 ^ 64. No subscription stands twice at an instrument.
pub publish_each-IsContinuous :
    (ms : List MarketDataMessage) (p : MarketDataPublisher) (k : ℕ) (q : MessageQueue)
    (d : MarketDataGapDetector)
    → IsPublisher p
    → find k p.subscribers ≡ some q
    → Agree k p.subscribers_by_instrument p.last_seq_no_by_instrument d
    → IsContinuous k ms p q d (publish_each ms p)
unfolding publish_each observe_each
publish_each-IsContinuous [] p k q d v found same = record {
  added = [];
  queue = q;
  stored = found;
  extended = sym (append-nil (contents q));
  complete = refl;
  accepted = tt;
}
publish_each-IsContinuous (m ∷ ms) p k q d v found same =
    let l = p.subscribers_by_instrument in
    let r = publish_message m p in
    let sent = publish_message-Sent m p k q v found in
    let (q1, at, is) = sent.queue in
    elim (Bool-cases (is_deaf k l (instrument_of m))) [
      | inl deaf ↦
          let rest = publish_each-IsContinuous ms r.1 k q1 d sent.publisher at (
            subst (λ t. Agree k t r.1.last_seq_no_by_instrument d) (sym sent.listed)
              (Agree-deaf m p d k l same deaf)) in
          record {
            added = rest.added;
            queue = rest.queue;
            stored = rest.stored;
            extended = rest.extended ∙ ap (λ c. c ++ rest.added) (is ∙ rw deaf refl);
            complete =
                rest.complete ∙ ap (λ t. map unnumbered (heard k t ms)) sent.listed ∙ rw deaf refl;
            accepted = rest.accepted;
          }
      | inr hears ↦
          let step = Agree-heard m p d k l same hears in
          let d1 = (observe r.0 d).1 in
          let rest =
            publish_each-IsContinuous ms r.1 k q1 d1 sent.publisher at
              (subst (λ t. Agree k t r.1.last_seq_no_by_instrument d1) (sym sent.listed) step.1) in
          record {
            added = r.0 ∷ rest.added;
            queue = rest.queue;
            stored = rest.stored;
            extended =
                rest.extended
                ∙ ap (λ c. c ++ rest.added) (is ∙ rw hears refl)
                ∙ append_assoc (contents q) (r.0 ∷ []) rest.added;
            complete =
                ap (λ x. unnumbered r.0 ∷ x)
                  (rest.complete ∙ ap (λ t. map unnumbered (heard k t ms)) sent.listed)
                ∙ ap (λ x. x ∷ map unnumbered (heard k l ms)) sent.same
                ∙ rw hears refl;
            accepted = (step.0, rest.accepted);
          }
    ]
