-- ===== src/Book/Tests.antt =====
-- Runs of src/book at concrete events, and the theorems about it at inputs that meet their hypotheses.
use mathlib.Core.List.{Perm}
use backtester_lab.Base.{ℕ, ◌≡◌, refl, true, false, List, [], ◌∷◌, none, some, arith, nat_eq, map}
use backtester_lab.Base.Int.{ℤ, pos, ltb_ℤ, int_beq}
use backtester_lab.Domain.{
  Side, Action, MarketDataEvent, has_valid_side, has_valid_price, has_valid_resting_state,
  action_beq,
}
use backtester_lab.Levels.{find_level, add_level, remove_level, volume, first_level}
use backtester_lab.Levels.Order.{greater, less}
use backtester_lab.Map.{find, insert, erase, erase_if, contains, sum_by}
use backtester_lab.Sides.{add_volume, remove_volume, volume_on}
use backtester_lab.Sides.Aggregate.{size_at}
use backtester_lab.Book.LimitOrderBook
use backtester_lab.Book.LimitOrderBook.{
  LimitOrderBook, RestingOrder, new_book, remove_order, place_order, apply_add, apply_cancel,
  apply_modify, apply_clear, dispatch, record_unknown_order_diagnostic, best_bid, best_ask,
  volume_at, contains_order, add_level_volume, remove_level_volume,
}
use backtester_lab.Book.LimitOrderBook.Invariant.{total, side_of, price_of, size_of}
use backtester_lab.Book.LimitOrderBook.Preserve.{IsValid, apply-IsValid, new_book-IsConsistent}
use backtester_lab.Book.LimitOrderBook.Refine.{find-apply, lookups}
use backtester_lab.Book.LimitOrderBook.Steps.{step}
use backtester_lab.Book.LimitOrderBook.Run.{run, run_steps, run_new-IsValid, run-volumes}
use backtester_lab.Book.LimitOrderBook.Best.{IsBest, best_bid-IsBest, best_ask-IsBest}
use backtester_lab.Book.LimitOrderBook.Counters.{IsSampled, apply-IsSampled}
use backtester_lab.Book.BookManager
use backtester_lab.Book.BookManager.{BookManager, new_manager}
use backtester_lab.Book.BookManager.Routing.{holds}
use backtester_lab.Book.BookManager.Apply.{
  Routed, apply-Routed, new_manager-Routed, run as run_manager, run_unique,
}
use backtester_lab.Book.BookManager.Snapshots.{BookManagerSnapshot, snapshot, instrument_ids}
use backtester_lab.Book.BookManager.Snapshots.Total.{IsAscending, snapshot-total}

-- What the tests compute with.
program : Unit {0}
unfolding find insert erase contains sum_by ltb_ℤ int_beq has_valid_resting_state has_valid_side
    has_valid_price find_level add_level remove_level volume first_level add_volume remove_volume
    volume_on add_level_volume remove_level_volume remove_order place_order apply_add apply_cancel
    apply_modify apply_clear dispatch LimitOrderBook.apply record_unknown_order_diagnostic new_book
    best_bid best_ask volume_at contains_order run total
program = tt

abbrev event : Action → ℕ → Side → ℕ → ℕ → MarketDataEvent
event action order_id side price size = record {
  timestamp = 100;
  ts_recv = 100;
  ts_event = 100;
  order_id = order_id;
  side = side;
  price = pos price;
  size = size;
  action = action;
  instrument_id = 7;
  source_file_id = 0;
  source_sequence = order_id;
  line_number = order_id;
}

abbrev feed : List MarketDataEvent
feed =
    event Action.add 1 Side.bid 90 5
    ∷ event Action.add 2 Side.bid 95 4
    ∷ event Action.add 3 Side.ask 99 6
    ∷ event Action.cancel 2 Side.bid 95 1
    ∷ event Action.modify 1 Side.bid 95 2
    ∷ []

abbrev fed : LimitOrderBook
fed = run feed (new_book 7)

fed_test :
    (best_bid fed ≡ some (pos 95))
    × (best_ask fed ≡ some (pos 99))
    × (volume_at Side.bid (pos 95) fed ≡ 5)
    × (volume_at Side.bid (pos 90) fed ≡ 0)
    × (fed.unknown_order_diagnostics ≡ [])
unfolding program
fed_test = (refl, refl, refl, refl, refl)

apply-IsValid_example :
    IsValid (LimitOrderBook.apply (event Action.add 1 Side.bid 90 5) (new_book 7))
unfolding program
apply-IsValid_example =
    apply-IsValid (event Action.add 1 Side.bid 90 5) (new_book 7) new_book-IsConsistent
      (omega arith)

find-apply_example :
    find 1 (LimitOrderBook.apply (event Action.add 1 Side.bid 90 5) (new_book 7)).orders
    ≡ step (event Action.add 1 Side.bid 90 5) (lookups (new_book 7).orders) 1
unfolding program
find-apply_example = find-apply (event Action.add 1 Side.bid 90 5) (new_book 7) 1 tt

run-volumes_example :
    ((s : Side) (p : ℤ)
      → volume_at s p fed ≡ sum_by (size_at side_of price_of size_of s p) fed.orders)
    × ((k : ℕ) → find k fed.orders ≡ run_steps feed (λ j. none) k)
run-volumes_example = run-volumes 7 feed (omega arith)

fed-IsValid : IsValid fed
fed-IsValid = run_new-IsValid 7 feed (omega arith)

best_bid-IsBest_example : IsBest greater Side.bid (pos 95) fed
unfolding program
best_bid-IsBest_example = best_bid-IsBest fed (pos 95) fed-IsValid refl

best_ask-IsBest_example : IsBest less Side.ask (pos 99) fed
unfolding program
best_ask-IsBest_example = best_ask-IsBest fed (pos 99) fed-IsValid refl

apply-IsSampled_example :
    IsSampled (LimitOrderBook.apply (event Action.cancel 4 Side.bid 90 5) (new_book 7))
unfolding program
apply-IsSampled_example =
    apply-IsSampled (event Action.cancel 4 Side.bid 90 5) (new_book 7)
      (record { sampled = omega arith }) (omega arith)

apply-Routed_example : Routed (BookManager.apply (event Action.add 1 Side.bid 90 5) new_manager)
apply-Routed_example =
    apply-Routed (event Action.add 1 Side.bid 90 5) new_manager new_manager-Routed

-- The manager after one order.
abbrev one_order : BookManager
one_order = BookManager.apply (event Action.add 1 Side.bid 90 5) new_manager

-- Order 1 moves from instrument 7 to instrument 8.
abbrev moving : List MarketDataEvent
moving =
    event Action.add 1 Side.bid 90 5
    ∷ record (event Action.modify 1 Side.ask 99 2) { instrument_id = 8 }
    ∷ []

routing_program : Unit {0}
unfolding program BookManager.apply BookManager.update_on
    BookManager.remove_previous_instrument_mapping holds erase_if action_beq run_manager
routing_program = tt

moving_test :
    (holds 7 1 (run_manager moving new_manager).books_by_instrument ≡ false)
    × (holds 8 1 (run_manager moving new_manager).books_by_instrument ≡ true)
unfolding routing_program
moving_test = (refl, refl)

run_unique_example : ◌≡◌ {A = ℕ} 8 8
unfolding routing_program
run_unique_example = run_unique moving 1 8 8 refl refl

snapshot-total_example :
    (s : BookManagerSnapshot) × (snapshot 1 100 5 one_order ≡ some s)
    × IsAscending (map (λ b. b.instrument_id) s.instruments)
    × Perm (map (λ b. b.instrument_id) s.instruments) (instrument_ids one_order.books_by_instrument)
snapshot-total_example = snapshot-total 1 100 5 one_order
