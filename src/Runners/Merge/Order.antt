-- ===== src/Runners/Merge/Order.antt =====
-- The order of events, and lists in order. src/domain/MarketDataEvent.cpp: `eventComesBefore`
use backtester_lab.Base.{ℕ, ◌≡◌, true, false, List, [], ◌∷◌, arith, nat_eq, All}
use backtester_lab.Domain.{MarketDataEvent, event_comes_before}

-- The key by which events are ordered.
pub record EventKey : Type 0 where
  pub timestamp : ℕ
  pub source_file_id : ℕ
  pub source_sequence : ℕ

abbrev pub key_of : MarketDataEvent → EventKey
key_of e = record {
  timestamp = e.timestamp;
  source_file_id = e.source_file_id;
  source_sequence = e.source_sequence;
}

pub comes_before_irrefl : (a : MarketDataEvent) → event_comes_before a a ≡ false
unfolding event_comes_before
comes_before_irrefl a = ground arith

-- If `b` is not before `a`, and `c` not before `b`, then `c` is not before `a`.
pub not_before_trans :
    (a b c : MarketDataEvent)
    → event_comes_before b a ≡ false
    → event_comes_before c b ≡ false
    → event_comes_before c a ≡ false
unfolding event_comes_before
not_before_trans a b c h k = ground arith

pub before_asymm :
    (a b : MarketDataEvent) → event_comes_before a b ≡ true → event_comes_before b a ≡ false
unfolding event_comes_before
before_asymm a b h = ground arith

pub key_of_not_before :
    (a b : MarketDataEvent)
    → event_comes_before a b ≡ false
    → event_comes_before b a ≡ false
    → key_of a ≡ key_of b
unfolding event_comes_before
key_of_not_before a b h k = ground arith

-- No event comes before an earlier one of the list.
abbrev pub NoneBefore : MarketDataEvent → List MarketDataEvent → Type 0
NoneBefore e l = All (λ x. event_comes_before x e ≡ false) l

abbrev pub IsChronological : List MarketDataEvent → Type 0
IsChronological [] = Unit
IsChronological (e ∷ l) = NoneBefore e l × IsChronological l
