-- ===== src/Backtest/MarketDataEventAdapter/Process.antt =====
-- src/backtest/MarketDataEventAdapter.cpp: what one event does, and which events get through.
use backtester_lab.Base.{
  ℕ, ◌+◌, ◌≡◌, refl, Bool, true, false, not, ◌&&◌, if◌then◌else◌, ◌==◌, arith, nat_eq, u64, length,
  All, All-snoc, Bool-cases, inl, inr,
}
use backtester_lab.Domain.{MarketDataEvent}
use backtester_lab.Lob.HistoricalLobStore
use backtester_lab.Messaging.Message.{MarketDataMessage, instrument_of, seq_no_of}
use backtester_lab.Backtest.MarketDataEventAdapter.{
  MarketDataEventAdapter, MarketDataEventAdapterResult, accepts, process, process_action,
  process_snapshot, is_lob_mutating_action, is_trade_like_action, should_publish_snapshot,
  make_snapshot, make_book_update, make_trade, not_accepted,
}

abbrev pub one_if : Bool → ℕ
one_if true = 1
one_if false = 0

-- The effect of an event: an accepted event is counted, and changes the store if its action changes
-- books. Each flag that is set stands for one message, which names the event's instrument and has
-- no number yet. A refused event has no effect.
pub record IsProcessed (e : MarketDataEvent) (a : MarketDataEventAdapter)
    (r : MarketDataEventAdapterResult × MarketDataEventAdapter) : Type 0 where
  pub accepted : r.0.accepted ≡ accepts e a
  pub applied : r.0.applied_to_lob ≡ (accepts e a && is_lob_mutating_action e.action)
  pub store : r.1.store ≡ (
      if accepts e a && is_lob_mutating_action e.action
      then HistoricalLobStore.apply e a.store
      else a.store)
  pub count :
      r.1.accepted_event_count
      ≡ (if accepts e a then u64 (a.accepted_event_count + 1) else a.accepted_event_count)
  pub reported : r.0.accepted_event_count ≡ r.1.accepted_event_count
  pub flags :
      length r.0.messages
      ≡ one_if r.0.published_book_update
        + (one_if r.0.published_trade + one_if r.0.published_snapshot)
  pub one_kind : (r.0.published_book_update && r.0.published_trade) ≡ false
  pub named : All (λ m. instrument_of m ≡ e.instrument_id) r.0.messages
  pub unnumbered : All (λ m. seq_no_of m ≡ 0) r.0.messages
  pub kept : (r.1.config ≡ a.config) × (r.1.instrument_filter ≡ a.instrument_filter)

-- A property of the messages that an event may make holds for those that it makes.
module _ (e : MarketDataEvent) (a : MarketDataEventAdapter) (P : MarketDataMessage → Type 0)
    (update : P (MarketDataMessage.book_update (make_book_update e)))
    (trade : P (MarketDataMessage.trade (make_trade e)))
    (snapshot : (b : MarketDataEventAdapter)
      → P (MarketDataMessage.book_snapshot (make_snapshot e b))) where
  action-All :
      (result : MarketDataEventAdapterResult)
      → All P result.messages
      → All P (process_action e a result).0.messages
  unfolding process_action
  action-All result all = elim (Bool-cases (is_lob_mutating_action e.action)) [
    | inl changes ↦
        elim (Bool-cases (a.config.publish_book_updates && not (e.instrument_id == 0))) [
          | inl says ↦ rw (changes, says) (All-snoc P result.messages _ all update)
          | inr silent ↦ rw (changes, silent) all
        ]
    | inr other ↦
        elim (Bool-cases (
          is_trade_like_action e.action
          && (a.config.publish_trades && not (e.instrument_id == 0)))) [
            | inl says ↦ rw (other, says) (All-snoc P result.messages _ all trade)
            | inr silent ↦ rw (other, silent) all
          ]
  ]

  snapshot-All :
      (r : MarketDataEventAdapterResult × MarketDataEventAdapter)
      → All P r.0.messages
      → All P (process_snapshot e r).0.messages
  unfolding process_snapshot
  snapshot-All (result, b) all = elim (Bool-cases (should_publish_snapshot e b)) [
    | inl due ↦ rw due (All-snoc P result.messages _ all (snapshot b))
    | inr silent ↦ rw silent all
  ]

process-All :
    (e : MarketDataEvent) (a : MarketDataEventAdapter) (P : MarketDataMessage → Type 0)
    → P (MarketDataMessage.book_update (make_book_update e))
    → P (MarketDataMessage.trade (make_trade e))
    → ((b : MarketDataEventAdapter) → P (MarketDataMessage.book_snapshot (make_snapshot e b)))
    → All P (process e a).0.messages
unfolding process
process-All e a P update trade snapshot = elim (Bool-cases (accepts e a)) [
  | inr refused ↦ rw refused tt
  | inl through ↦
      let counted : MarketDataEventAdapter = record a {
        accepted_event_count = u64 (a.accepted_event_count + 1);
      } in
      let result : MarketDataEventAdapterResult = record (not_accepted e a) {
        accepted = true;
        accepted_event_count = counted.accepted_event_count;
      } in
      rw through (
        snapshot-All e a P update trade snapshot (process_action e counted result)
          (action-All e counted P update trade snapshot result tt))
]

-- An event that is accepted is counted, and changes the store exactly if its action changes books.
-- Each flag of the result that is set stands for one message, which names the event's instrument. A
-- refused event has no effect.
pub process-IsProcessed :
    (e : MarketDataEvent) (a : MarketDataEventAdapter) → IsProcessed e a (process e a)
unfolding process process_action process_snapshot make_snapshot make_book_update make_trade
    instrument_of seq_no_of
process-IsProcessed e a = elim (Bool-cases (accepts e a)) [
  | inr refused ↦ record {
    accepted = ground (arith, refused);
    applied = ground (arith, refused);
    store = ground (arith, refused);
    count = ground (arith, refused);
    reported = ground (arith, refused);
    flags = ground (arith, refused);
    one_kind = ground (arith, refused);
    named = process-All e a (λ m. instrument_of m ≡ e.instrument_id) refl refl (λ b. refl);
    unnumbered = process-All e a (λ m. seq_no_of m ≡ 0) refl refl (λ b. refl);
    kept = ground (arith, refused);
  }
  | inl through ↦ record {
    accepted = ground (arith, through);
    applied = ground (arith, through);
    store = ground (arith, through);
    count = ground (arith, through);
    reported = ground (arith, through);
    flags = ground (arith, through);
    one_kind = ground (arith, through);
    named = process-All e a (λ m. instrument_of m ≡ e.instrument_id) refl refl (λ b. refl);
    unnumbered = process-All e a (λ m. seq_no_of m ≡ 0) refl refl (λ b. refl);
    kept = ground (arith, through);
  }
]
