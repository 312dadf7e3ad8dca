-- ===== src/Domain.antt =====
-- src/domain/Types.hpp and src/domain/MarketDataEvent.{hpp,cpp}: identifiers, sides, actions, the
-- market data event and its order. Unsigned identifiers are numbers, prices are signed integers.
use backtester_lab.Base.{nat_eq, ℕ, ◌-◌, Bool, true, false, not, ◌&&◌, ◌||◌, ltb, ◌==◌, u64_mod}
use backtester_lab.Base.Int.{int_eq, ℤ, int64_max, int64_min}

pub data Side : Type 0 where
  ask bid none : Side

pub data Action : Type 0 where
  add modify cancel clear trade fill none : Action

pub record MarketDataEvent : Type 0 where
  pub timestamp : ℕ
  pub ts_recv : ℕ
  pub ts_event : ℕ
  pub order_id : ℕ
  pub side : Side
  pub price : ℤ
  pub size : ℕ
  pub action : Action
  pub instrument_id : ℕ
  pub source_file_id : ℕ
  pub source_sequence : ℕ
  pub line_number : ℕ

abbrev pub undefined_price : ℤ
undefined_price = int64_max

abbrev pub raw_undefined_timestamp : ℕ
raw_undefined_timestamp = u64_mod - 1

abbrev pub undefined_timestamp : ℤ
undefined_timestamp = int64_min

unfoldable pub is_defined_price : ℤ → Bool
is_defined_price price = not (price == undefined_price)

unfoldable pub side_beq : Side → Side → Bool
side_beq Side.ask Side.ask = true
side_beq Side.bid Side.bid = true
side_beq Side.none Side.none = true
side_beq _ _ = false

unfoldable pub action_beq : Action → Action → Bool
action_beq Action.add Action.add = true
action_beq Action.modify Action.modify = true
action_beq Action.cancel Action.cancel = true
action_beq Action.clear Action.clear = true
action_beq Action.trade Action.trade = true
action_beq Action.fill Action.fill = true
action_beq Action.none Action.none = true
action_beq _ _ = false

-- The comparison of tuples by `std::tie`.
unfoldable pub event_comes_before : MarketDataEvent → MarketDataEvent → Bool
event_comes_before lhs rhs =
    ltb lhs.timestamp rhs.timestamp
    || (lhs.timestamp == rhs.timestamp
        && (ltb lhs.source_file_id rhs.source_file_id
            || (lhs.source_file_id == rhs.source_file_id
                && ltb lhs.source_sequence rhs.source_sequence)))

-- The helpers that the books repeat in their anonymous namespaces.
unfoldable pub has_valid_side : Side → Bool
unfolding side_beq
has_valid_side side = side_beq side Side.bid || side_beq side Side.ask

unfoldable pub has_valid_price : ℤ → Bool
has_valid_price price = not (price == int64_max)

unfoldable pub has_valid_resting_state : MarketDataEvent → Bool
unfolding has_valid_side has_valid_price
has_valid_resting_state event =
    not (event.order_id == 0)
    && (has_valid_side event.side && (has_valid_price event.price && ltb 0 event.size))
