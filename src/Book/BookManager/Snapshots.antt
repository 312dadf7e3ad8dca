-- ===== src/Book/BookManager/Snapshots.antt =====
-- Snapshots of all books, by ascending instrument id, and the counters summed over the books.
pub mod Total
use mathlib.Core.List.{Perm}
use mathlib.Core.List.Perm
use backtester_lab.Base.{
  ℕ, ◌+◌, ◌≤◌, ◌≡◌, refl, ap, Bool, true, false, List, [], ◌∷◌, map, Option, none, some, arith,
  if◌then◌else◌, ◌==◌, leb, u64, length, nat_eq, beq_refl, Bool-cases, Option-cases, inl, inr, All,
}
use backtester_lab.Base.Int.{ℤ}
use backtester_lab.Levels.{Levels}
use backtester_lab.Map.{Map, find, contains}
use backtester_lab.Book.LimitOrderBook.{
  LimitOrderBook, resting_order_count, best_bid, best_ask, bid_levels, ask_levels,
}
use backtester_lab.Book.BookManager.{BookManager}

pub record PriceLevelSnapshot : Type 0 where
  pub price : ℤ
  pub size : ℕ

pub record InstrumentBookSnapshot : Type 0 where
  pub instrument_id : ℕ
  pub resting_orders : ℕ
  pub best_bid : Option ℤ
  pub best_ask : Option ℤ
  pub bids : List PriceLevelSnapshot
  pub asks : List PriceLevelSnapshot

pub record BookManagerSnapshot : Type 0 where
  pub event_count : ℕ
  pub timestamp : ℕ
  pub processed_events : ℕ
  pub unresolved_events : ℕ
  pub instruments : List InstrumentBookSnapshot

insert_sorted : ℕ → List ℕ → List ℕ
insert_sorted k [] = k ∷ []
insert_sorted k (j ∷ l) = let rest = insert_sorted k l in if leb k j then k ∷ j ∷ l else j ∷ rest

sort : List ℕ → List ℕ
unfolding insert_sorted
sort [] = []
sort (k ∷ l) = insert_sorted k (sort l)

unfoldable pub instrument_ids : Map ℕ LimitOrderBook → List ℕ
instrument_ids [] = []
instrument_ids ((k, b) ∷ m) = k ∷ instrument_ids m

unfoldable pub sorted_instrument_ids : Map ℕ LimitOrderBook → List ℕ
unfolding sort
sorted_instrument_ids books = sort (instrument_ids books)

unfoldable pub make_level_snapshots : Levels ℤ → List PriceLevelSnapshot
make_level_snapshots [] = []
make_level_snapshots ((price, size) ∷ l) =
    record { price = price; size = size } ∷ make_level_snapshots l

unfoldable pub book_snapshot : ℕ → ℕ → LimitOrderBook → InstrumentBookSnapshot
book_snapshot depth i book = record {
  instrument_id = i;
  resting_orders = resting_order_count book;
  best_bid = best_bid book;
  best_ask = best_ask book;
  bids = make_level_snapshots (bid_levels depth book);
  asks = make_level_snapshots (ask_levels depth book);
}

-- The loop of `snapshot`; `none` is the exception of `books_by_instrument_.at`.
unfoldable pub book_snapshots :
    ℕ → Map ℕ LimitOrderBook → List ℕ → Option (List InstrumentBookSnapshot)
book_snapshots depth books [] = some []
book_snapshots depth books (i ∷ ids) =
    let rest = book_snapshots depth books ids in
    elim (find i books) [
      | none ↦ none
      | some book ↦ elim rest [ none ↦ none | some done ↦ some (book_snapshot depth i book ∷ done) ]
    ]

unfoldable pub snapshot : ℕ → ℕ → ℕ → BookManager → Option BookManagerSnapshot
unfolding book_snapshots sorted_instrument_ids
snapshot event_count timestamp depth m =
    elim (book_snapshots depth m.books_by_instrument
      (sorted_instrument_ids m.books_by_instrument)) [
        | none ↦ none
        | some instruments ↦ some (record {
          event_count = event_count;
          timestamp = timestamp;
          processed_events = m.processed_events;
          unresolved_events = m.unresolved_events;
          instruments = instruments;
        })
      ]
