-- ===== src/Book/LimitOrderBook/Run.antt =====
-- A whole feed of events into one book, from the empty book on.
use mathlib.Core.Path.{fun_ext}
use backtester_lab.Base.{
  ℕ, ◌+◌, ◌<◌, ◌≡◌, refl, ap, ◌∙◌, List, [], ◌∷◌, none, arith, u64_mod, sum_map, nat_eq,
}
use backtester_lab.Base.Int.{ℤ}
use backtester_lab.Domain.{Side, MarketDataEvent}
use backtester_lab.Map.{find, sum_by}
use backtester_lab.Sides.Aggregate.{size_at}
use backtester_lab.Book.LimitOrderBook.{LimitOrderBook, new_book, apply, volume_at}
use backtester_lab.Book.LimitOrderBook.Invariant.{side_of, price_of, size_of, total}
use backtester_lab.Book.LimitOrderBook.Preserve.{IsValid, apply-IsValid, new_book-IsConsistent}
use backtester_lab.Book.LimitOrderBook.Refine.{lookups, find-apply, total-apply}
use backtester_lab.Book.LimitOrderBook.Steps.{Lookup, step}

unfoldable pub run : List MarketDataEvent → LimitOrderBook → LimitOrderBook
run [] b = b
run (e ∷ es) b = run es (apply e b)

unfoldable pub run_steps : List MarketDataEvent → Lookup → Lookup
run_steps [] look = look
run_steps (e ∷ es) look = run_steps es (step e look)

-- The sizes of all events together.
abbrev pub sizes : List MarketDataEvent → ℕ
sizes = sum_map (λ e. e.size)

run-IsValid :
    (es : List MarketDataEvent) (b : LimitOrderBook)
    → IsValid b
    → total b.orders + sizes es < u64_mod
    → IsValid (run es b)
unfolding run
run-IsValid [] b c room = c
run-IsValid (e ∷ es) b c room =
    run-IsValid es (apply e b) (apply-IsValid e b c (omega arith)) (omega (arith, total-apply e b))

find-run :
    (es : List MarketDataEvent) (b : LimitOrderBook) (k : ℕ)
    → IsValid b
    → total b.orders + sizes es < u64_mod
    → find k (run es b).orders ≡ run_steps es (lookups b.orders) k
unfolding run run_steps
find-run [] b k c room = refl
find-run (e ∷ es) b k c room =
    find-run es (apply e b) k (apply-IsValid e b c (omega arith)) (omega (arith, total-apply e b))
    ∙ ap (λ look. run_steps es look k) (fun_ext λ j. find-apply e b j c.distinct)

pub run_new-IsValid :
    (instrument_id : ℕ) (es : List MarketDataEvent)
    → sizes es < u64_mod
    → IsValid (run es (new_book instrument_id))
unfolding new_book total sum_by
run_new-IsValid instrument_id es room = run-IsValid es _ new_book-IsConsistent (omega arith)

-- After any feed whose sizes stay below 2 ^ 64 together, the volume at every side and price is the
-- sum of the orders that rest there, and these orders are what the abstract steps leave.
pub run-volumes :
    (instrument_id : ℕ) (es : List MarketDataEvent)
    → sizes es < u64_mod
    → let b = run es (new_book instrument_id) in
      ((s : Side) (p : ℤ)
        → volume_at s p b ≡ sum_by (size_at side_of price_of size_of s p) b.orders)
      × ((k : ℕ) → find k b.orders ≡ run_steps es (λ j. none) k)
unfolding volume_at
run-volumes instrument_id es room = (
  λ s p. (run_new-IsValid instrument_id es room).sums.volumes s p,
  λ k.
      unfold new_book total sum_by find in
      find-run es (new_book instrument_id) k new_book-IsConsistent (omega arith),
)
