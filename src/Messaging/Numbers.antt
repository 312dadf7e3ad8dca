-- ===== src/Messaging/Numbers.antt =====
-- The numbers that the publisher gives, as the detector of gaps sees them.
use backtester_lab.Base.{
  ℕ, ◌+◌, ◌<◌, ◌≡◌, refl, ◌↔◌, some, arith, if◌then◌else◌, ◌==◌, ltb, nat_eq, nat_beq_iff, u64,
  u64_mod, inl, inr, Option-cases,
}
use backtester_lab.Map.{Map, find, insert}
use backtester_lab.Map.Laws.{find-insert}
use backtester_lab.Messaging.Message.{MarketDataMessage, instrument_of, seq_no_of}
use backtester_lab.Messaging.Publisher.{
  MarketDataPublisher, last_seq_no, next_seq_no, publish, publish_update, publish_snapshot,
  publish_trade,
}
use backtester_lab.Messaging.GapDetector.{
  MarketDataGapDetector, SequenceCheckStatus, SequenceCheckResult, check_number, observe,
}

-- A call on the publisher: the message as it is published, and the publisher after.
unfoldable pub publish_message :
    MarketDataMessage → MarketDataPublisher → MarketDataMessage × MarketDataPublisher
publish_message (MarketDataMessage.book_update m) p =
    let r = publish_update m p in (MarketDataMessage.book_update (record m { seq_no = r.0 }), r.1)
publish_message (MarketDataMessage.book_snapshot m) p =
    let r = publish_snapshot m p in
    (MarketDataMessage.book_snapshot (record m { seq_no = r.0 }), r.1)
publish_message (MarketDataMessage.trade m) p =
    let r = publish_trade m p in (MarketDataMessage.trade (record m { seq_no = r.0 }), r.1)

-- The number that is next at an instrument.
abbrev pub next_at : ℕ → Map ℕ ℕ → ℕ
next_at i m = u64 (last_seq_no i m + 1)

publish-numbers :
    (m : MarketDataMessage) (p : MarketDataPublisher)
    → (publish m p).last_seq_no_by_instrument ≡ p.last_seq_no_by_instrument
unfolding publish
publish-numbers m p = elim (Option-cases (find (instrument_of m) p.subscribers_by_instrument)) [
  | inl missing ↦ rw (missing, publish) refl
  | inr (l, found) ↦ rw (found, publish) refl
]

-- A published message keeps its instrument, has the next number there, and that number is stored.
pub publish_message-Numbered :
    (m : MarketDataMessage) (p : MarketDataPublisher)
    → let i = instrument_of m in
      let r = publish_message m p in
      (instrument_of r.0 ≡ i)
      × (seq_no_of r.0 ≡ next_at i p.last_seq_no_by_instrument)
      × (r.1.last_seq_no_by_instrument
          ≡ insert i (next_at i p.last_seq_no_by_instrument) p.last_seq_no_by_instrument)
unfolding publish_message instrument_of seq_no_of publish_update publish_snapshot publish_trade
    next_seq_no
publish_message-Numbered (MarketDataMessage.book_update m) p =
    let r = next_seq_no m.instrument_id p in
    (refl, refl, publish-numbers (MarketDataMessage.book_update (record m { seq_no = r.0 })) r.1)
publish_message-Numbered (MarketDataMessage.book_snapshot m) p =
    let r = next_seq_no m.instrument_id p in
    (refl, refl, publish-numbers (MarketDataMessage.book_snapshot (record m { seq_no = r.0 })) r.1)
publish_message-Numbered (MarketDataMessage.trade m) p =
    let r = next_seq_no m.instrument_id p in
    (refl, refl, publish-numbers (MarketDataMessage.trade (record m { seq_no = r.0 })) r.1)

-- The detector's answer: it compares the number with the next one at the message's instrument, where
-- an instrument that it has not seen counts as at 0, and stores the number unless it is lower.
pub record Checks (m : MarketDataMessage) (d : MarketDataGapDetector)
    (r : SequenceCheckResult × MarketDataGapDetector) : Type 0 where
  pub expected : r.0.expected_seq_no ≡ next_at (instrument_of m) d
  pub observed : r.0.observed_seq_no ≡ seq_no_of m
  pub instrument : r.0.instrument_id ≡ instrument_of m
  pub is_ok : (r.0.status ≡ SequenceCheckStatus.ok) ↔ (seq_no_of m ≡ next_at (instrument_of m) d)
  pub is_gap : (r.0.status ≡ SequenceCheckStatus.gap) ↔ (next_at (instrument_of m) d < seq_no_of m)
  pub after :
      (j : ℕ)
      → find j r.1 ≡ (
          if instrument_of m == j
          then (if ltb (seq_no_of m) (next_at (instrument_of m) d)
              then find j d
              else some (seq_no_of m))
          else find j d)

-- The detector compares the number of a message with the next one at its instrument, reports ok or a
-- gap exactly if the number equals or exceeds it, and stores the number unless it is lower.
pub observe-Checks : (m : MarketDataMessage) (d : MarketDataGapDetector) → Checks m d (observe m d)
unfolding observe check_number
observe-Checks m d = elim (Option-cases (find (instrument_of m) d)) [
  | inl missing ↦ record {
    expected = ground (arith, missing);
    observed = ground (arith, missing);
    instrument = ground (arith, missing);
    is_ok = ground (arith, missing, nat_beq_iff (seq_no_of m) 1);
    is_gap = ground (arith, missing, nat_beq_iff (seq_no_of m) 1);
    after = λ j. ground (arith, missing, find-insert j (instrument_of m) (seq_no_of m) d);
  }
  | inr (last, found) ↦ record {
    expected = ground (arith, found);
    observed = ground (arith, found);
    instrument = ground (arith, found);
    is_ok = ground (arith, found, nat_beq_iff (seq_no_of m) (u64 (last + 1)));
    is_gap = ground (arith, found, nat_beq_iff (seq_no_of m) (u64 (last + 1)));
    after = λ j. ground (arith, found, find-insert j (instrument_of m) (seq_no_of m) d);
  }
]

-- A detector that has missed messages of an instrument finds a gap at the next one, while the number
-- stays below 2 ^ 64.
pub observe-missed :
    (m : MarketDataMessage) (p : MarketDataPublisher) (d : MarketDataGapDetector)
    → last_seq_no (instrument_of m) d < last_seq_no (instrument_of m) p.last_seq_no_by_instrument
    → last_seq_no (instrument_of m) p.last_seq_no_by_instrument + 1 < u64_mod
    → (observe (publish_message m p).0 d).0.status ≡ SequenceCheckStatus.gap
observe-missed m p d behind fits =
    let n = publish_message-Numbered m p in
    let c = observe-Checks (publish_message m p).0 d in c.is_gap.1 (rw (n.0, n.1) (omega arith))
