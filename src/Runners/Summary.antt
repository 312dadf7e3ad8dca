-- ===== src/Runners/Summary.antt =====
-- src/runners/RunResult.hpp: `ProcessingSummary`, and `dispatchMergedQueue` of HardRunnerSupport.cpp.
-- The processor is the caller's: `process` is its step on its state.
pub mod Chronology
use backtester_lab.Base.{
  ℕ, ◌+◌, Bool, false, List, [], ◌∷◌, ◌++◌, Option, none, some, if◌then◌else◌, ltb, ◌==◌, nat_eq,
  length, u64, drop,
}
use backtester_lab.Domain.{MarketDataEvent, event_comes_before}
use backtester_lab.Runners.Merge.{EventStream}

pub record ProcessingSummary : Type 0 where
  pub total_messages_processed : ℕ
  pub chronological_violations : ℕ
  pub first_timestamp : Option ℕ
  pub last_timestamp : Option ℕ
  pub previous_event : Option MarketDataEvent
  pub first_events : List MarketDataEvent
  pub last_events : List MarketDataEvent

abbrev pub new_summary : ProcessingSummary
new_summary = record {
  total_messages_processed = 0;
  chronological_violations = 0;
  first_timestamp = none;
  last_timestamp = none;
  previous_event = none;
  first_events = [];
  last_events = [];
}

-- `previous_event.has_value() && eventComesBefore(event, *previous_event)`
unfoldable pub violates : MarketDataEvent → ProcessingSummary → Bool
violates event s = elim s.previous_event [
  | none ↦ false
  | some previous ↦ event_comes_before event previous
]

unfoldable pub observe : MarketDataEvent → ProcessingSummary → ProcessingSummary
unfolding violates
observe event s = record {
  total_messages_processed = u64 (s.total_messages_processed + 1);
  chronological_violations =
      if violates event s then u64 (s.chronological_violations + 1) else s.chronological_violations;
  first_timestamp = elim s.first_timestamp [
    | none ↦ some event.timestamp
    | some first ↦ some first
  ];
  last_timestamp = some event.timestamp;
  previous_event = some event;
  first_events =
      if ltb (length s.first_events) 10 then s.first_events ++ (event ∷ []) else s.first_events;
  last_events =
      (if length s.last_events == 10 then drop 1 s.last_events else s.last_events) ++ (event ∷ []);
}

module _ {ℓ} {P : Type ℓ} (process : MarketDataEvent → P → P) where
  -- The loop over the items of the queue, up to its end item.
  unfoldable pub dispatch_merged_queue : EventStream → P → ProcessingSummary → P × ProcessingSummary
  unfolding observe
  dispatch_merged_queue [] processor summary = (processor, summary)
  dispatch_merged_queue (event ∷ events) processor summary =
      dispatch_merged_queue events (process event processor) (observe event summary)
