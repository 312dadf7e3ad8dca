-- ===== src/Book/BookManager.antt =====
-- src/book/BookManager.{hpp,cpp} and src/book/BookSnapshot.hpp: one book for each instrument, and the
-- routing of events that state only an order id. The printed summaries and the digest are text and
-- are left out. `sortedInstrumentIds` is an insertion sort here for the source's `std::sort`.
pub mod Routing
pub mod Contains
pub mod Cases
pub mod Apply
pub mod Snapshots
use backtester_lab.Base.{
  ℕ, ◌+◌, Bool, true, false, ◌&&◌, ◌||◌, not, List, [], ◌∷◌, map, Option, none, some, if◌then◌else◌,
  ◌==◌, leb, u64, length, nat_eq,
}
use backtester_lab.Base.Int.{ℤ}
use backtester_lab.Domain.{Action, action_beq, MarketDataEvent, has_valid_resting_state}
use backtester_lab.Levels.{Levels}
use backtester_lab.Map.{Map, find, insert, erase, erase_if}
use backtester_lab.Book.LimitOrderBook
use backtester_lab.Book.LimitOrderBook.{
  LimitOrderBook, new_book, contains_order, resting_order_count, best_bid, best_ask, bid_levels,
  ask_levels,
}

pub record BookManager : Type 0 where
  pub books_by_instrument : Map ℕ LimitOrderBook
  pub order_to_instrument : Map ℕ ℕ
  pub processed_events : ℕ
  pub unresolved_events : ℕ

abbrev pub new_manager : BookManager
new_manager = record {
  books_by_instrument = [];
  order_to_instrument = [];
  processed_events = 0;
  unresolved_events = 0;
}

unfoldable pub find_book : ℕ → BookManager → Option LimitOrderBook
find_book instrument_id m = find instrument_id m.books_by_instrument

-- The book, and the manager that surely has it.
unfoldable pub get_or_create_book : ℕ → BookManager → LimitOrderBook × BookManager
get_or_create_book instrument_id m = elim (find instrument_id m.books_by_instrument) [
  | some book ↦ (book, m)
  | none ↦
      let book = new_book instrument_id in
      (book, record m { books_by_instrument = insert instrument_id book m.books_by_instrument })
]

unfoldable pub resolve_instrument_id : MarketDataEvent → BookManager → ℕ
resolve_instrument_id event m =
    if not (event.instrument_id == 0)
    then event.instrument_id
    else if event.order_id == 0
    then 0
    else elim (find event.order_id m.order_to_instrument) [ none ↦ 0 | some i ↦ i ]

unfoldable pub erase_order_mapping_if_matches : ℕ → ℕ → BookManager → BookManager
erase_order_mapping_if_matches order_id instrument_id m =
    elim (find order_id m.order_to_instrument) [
      | none ↦ m
      | some i ↦
          if i == instrument_id
          then record m { order_to_instrument = erase order_id m.order_to_instrument }
          else m
    ]

unfoldable pub erase_order_mappings_for_instrument : ℕ → BookManager → BookManager
erase_order_mappings_for_instrument instrument_id m = record m {
  order_to_instrument = erase_if (λ i. i == instrument_id) m.order_to_instrument;
}

unfoldable pub map_order : MarketDataEvent → BookManager → BookManager
map_order event m = record m {
  order_to_instrument = insert event.order_id event.instrument_id m.order_to_instrument;
}

-- The `switch` of `updateOrderMapping`.
unfoldable pub update_on : Action → MarketDataEvent → LimitOrderBook → BookManager → BookManager
unfolding map_order
update_on Action.add event book m =
    if not (event.order_id == 0) && contains_order event.order_id book then map_order event m else m
update_on Action.modify event book m =
    if not (event.order_id == 0) && contains_order event.order_id book then map_order event m else m
update_on Action.cancel event book m =
    if event.order_id == 0
    then m
    else if contains_order event.order_id book
    then map_order event m
    else erase_order_mapping_if_matches event.order_id event.instrument_id m
update_on Action.clear event book m = erase_order_mappings_for_instrument event.instrument_id m
update_on Action.trade event book m = m
update_on Action.fill event book m = m
update_on Action.none event book m = m

unfoldable pub update_order_mapping : MarketDataEvent → LimitOrderBook → BookManager → BookManager
update_order_mapping event book m = update_on event.action event book m

-- Only a full Add or Modify moves an order from another instrument.
unfoldable pub may_move : MarketDataEvent → Bool
unfolding action_beq
may_move event =
    (action_beq event.action Action.add || action_beq event.action Action.modify)
    && has_valid_resting_state event

-- The cancel that takes the order out of its previous book.
abbrev pub cancel_previous : ℕ → MarketDataEvent → MarketDataEvent
cancel_previous previous event = record event {
  action = Action.cancel;
  instrument_id = previous;
  size = 0;
}

unfoldable pub cancel_in : ℕ → MarketDataEvent → BookManager → BookManager
cancel_in previous event m = elim (find previous m.books_by_instrument) [
  | none ↦ m
  | some book ↦
      let book' = LimitOrderBook.apply (cancel_previous previous event) book in
      record m { books_by_instrument = insert previous book' m.books_by_instrument }
]

unfoldable pub remove_previous_instrument_mapping : MarketDataEvent → ℕ → BookManager → BookManager
unfolding may_move cancel_in
remove_previous_instrument_mapping event target m =
    if not (may_move event) then m else elim (find event.order_id m.order_to_instrument) [
      | none ↦ m
      | some previous ↦
          if previous == target
          then m
          else let m' = cancel_in previous event m in
            record m' { order_to_instrument = erase event.order_id m'.order_to_instrument }
    ]

-- The end of `apply`, for a resolved event: the book's own step, and the mapping.
unfoldable pub apply_routed : MarketDataEvent → BookManager → BookManager
unfolding get_or_create_book update_order_mapping
apply_routed event m =
    let found = get_or_create_book event.instrument_id m in
    let book = LimitOrderBook.apply event found.0 in
    update_order_mapping event book (record m {
      books_by_instrument = insert event.instrument_id book (found.1).books_by_instrument;
    })

unfoldable pub apply : MarketDataEvent → BookManager → BookManager
unfolding apply_routed resolve_instrument_id
apply event m =
    let m' = record m { processed_events = u64 (m.processed_events + 1) } in
    let instrument_id = resolve_instrument_id event m' in
    let routed = record event { instrument_id = instrument_id } in
    if instrument_id == 0
    then record m' { unresolved_events = u64 (m'.unresolved_events + 1) }
    else apply_routed routed (remove_previous_instrument_mapping routed instrument_id m')
