-- ===== src/Messaging/GapDetector.antt =====
-- src/messaging/MarketDataGapDetector.{hpp,cpp}
use backtester_lab.Base.{ℕ, ◌+◌, none, some, [], if◌then◌else◌, ◌==◌, ltb, nat_eq, u64}
use backtester_lab.Map.{Map, find, insert, erase}
use backtester_lab.Messaging.Message.{MarketDataMessage, instrument_of, seq_no_of}

pub data SequenceCheckStatus : Type 0 where
  ok gap duplicate_or_out_of_order : SequenceCheckStatus

pub record SequenceCheckResult : Type 0 where
  pub status : SequenceCheckStatus
  pub instrument_id : ℕ
  pub expected_seq_no : ℕ
  pub observed_seq_no : ℕ

-- `last_seq_no_by_instrument_`.
abbrev pub MarketDataGapDetector : Type 0
MarketDataGapDetector = Map ℕ ℕ

-- The comparison that both halves of `observe` make, with their own expected number.
unfoldable pub check_number :
    ℕ → ℕ → ℕ → MarketDataGapDetector → SequenceCheckResult × MarketDataGapDetector
check_number instrument_id expected observed d =
    let result : SequenceCheckStatus → SequenceCheckResult = λ status. record {
      status = status;
      instrument_id = instrument_id;
      expected_seq_no = expected;
      observed_seq_no = observed;
    } in
    if observed == expected
    then (result SequenceCheckStatus.ok, insert instrument_id observed d)
    else if ltb expected observed
    then (result SequenceCheckStatus.gap, insert instrument_id observed d)
    else (result SequenceCheckStatus.duplicate_or_out_of_order, d)

unfoldable pub observe :
    MarketDataMessage → MarketDataGapDetector → SequenceCheckResult × MarketDataGapDetector
unfolding check_number
observe message d = elim (find (instrument_of message) d) [
  | none ↦ check_number (instrument_of message) 1 (seq_no_of message) d
  | some last ↦ check_number (instrument_of message) (u64 (last + 1)) (seq_no_of message) d
]

unfoldable pub reset : MarketDataGapDetector → MarketDataGapDetector
reset d = []

unfoldable pub reset_instrument : ℕ → MarketDataGapDetector → MarketDataGapDetector
reset_instrument instrument_id d = erase instrument_id d
