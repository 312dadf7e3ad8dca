-- ===== src/Book/BookManager/Snapshots/Total.antt =====
-- The ids and the books of a snapshot.
use mathlib.Core.List.{Perm}
use mathlib.Core.List.Perm
use backtester_lab.Base.{
  ℕ, ◌≤◌, ◌≡◌, refl, ap, true, List, [], ◌∷◌, map, some, arith, leb, nat_eq, beq_refl, Bool-cases,
  Option-cases, inl, inr, All,
}
use backtester_lab.Map.{Map, find, contains}
use backtester_lab.Book.LimitOrderBook.{LimitOrderBook}
use backtester_lab.Book.BookManager.{BookManager}
use backtester_lab.Book.BookManager.Snapshots.{
  InstrumentBookSnapshot, BookManagerSnapshot, insert_sorted, sort, instrument_ids, book_snapshot,
  book_snapshots, snapshot,
}

abbrev pub IsAscending : List ℕ → Type 0
IsAscending [] = Unit
IsAscending (x ∷ xs) = All (λ y. x ≤ y) xs × IsAscending xs

All-le_trans : (x y : ℕ) (l : List ℕ) → x ≤ y → All (λ z. y ≤ z) l → All (λ z. x ≤ z) l
All-le_trans x y [] h a = tt
All-le_trans x y (z ∷ l) h a = (omega arith, All-le_trans x y l h a.1)

All-insert_sorted :
    (x k : ℕ) (l : List ℕ) → x ≤ k → All (λ z. x ≤ z) l → All (λ z. x ≤ z) (insert_sorted k l)
unfolding insert_sorted
All-insert_sorted x k [] h a = (h, tt)
All-insert_sorted x k (j ∷ l) h a = ground (arith, All-insert_sorted x k l h a.1)

insert_sorted-IsAscending : (k : ℕ) (l : List ℕ) → IsAscending l → IsAscending (insert_sorted k l)
unfolding insert_sorted
insert_sorted-IsAscending k [] a = (tt, tt)
insert_sorted-IsAscending k (j ∷ l) a =
    ground (arith, All-le_trans k j l, All-insert_sorted j k l, insert_sorted-IsAscending k l a.1)

sort-IsAscending : (l : List ℕ) → IsAscending (sort l)
unfolding sort
sort-IsAscending [] = tt
sort-IsAscending (k ∷ l) = insert_sorted-IsAscending k (sort l) (sort-IsAscending l)

insert_sorted-perm : (k : ℕ) (l : List ℕ) → Perm (insert_sorted k l) (k ∷ l)
unfolding insert_sorted
insert_sorted-perm k [] = Perm.refl _
insert_sorted-perm k (j ∷ l) = elim (Bool-cases (leb k j)) [
  | inl le ↦ rw le (Perm.refl _)
  | inr gt ↦ rw gt (Perm.trans (Perm.cons j (insert_sorted-perm k l)) (Perm.swap k j l))
]

sort-perm : (l : List ℕ) → Perm (sort l) l
unfolding sort
sort-perm [] = Perm.refl _
sort-perm (k ∷ l) = Perm.trans (insert_sorted-perm k (sort l)) (Perm.cons k (sort-perm l))

-- Every id of the list has a book.
abbrev AllFound : Map ℕ LimitOrderBook → List ℕ → Type 0
AllFound books [] = Unit
AllFound books (i ∷ ids) = (contains i books ≡ true) × AllFound books ids

All-insert :
    (books : Map ℕ LimitOrderBook) (k : ℕ) (l : List ℕ)
    → contains k books ≡ true
    → AllFound books l
    → AllFound books (insert_sorted k l)
unfolding insert_sorted
All-insert books k [] h a = (h, tt)
All-insert books k (j ∷ l) h a = ground (arith, All-insert books k l h a.1)

AllFound-sort :
    (books : Map ℕ LimitOrderBook) (l : List ℕ) → AllFound books l → AllFound books (sort l)
unfolding sort
AllFound-sort books [] a = tt
AllFound-sort books (k ∷ l) a = All-insert books k (sort l) a.0 (AllFound-sort books l a.1)

AllFound-cons :
    (k : ℕ) (b : LimitOrderBook) (books : Map ℕ LimitOrderBook) (l : List ℕ)
    → AllFound books l
    → AllFound ((k, b) ∷ books) l
unfolding contains find
AllFound-cons k b books [] a = tt
AllFound-cons k b books (i ∷ l) a = ground (arith, AllFound-cons k b books l a.1)

AllFound-ids : (books : Map ℕ LimitOrderBook) → AllFound books (instrument_ids books)
unfolding instrument_ids contains find
AllFound-ids [] = tt
AllFound-ids ((k, b) ∷ books) =
    (ground (arith, beq_refl k), AllFound-cons k b books _ (AllFound-ids books))

book_snapshots-total :
    (depth : ℕ) (books : Map ℕ LimitOrderBook) (ids : List ℕ)
    → AllFound books ids
    → (l : List InstrumentBookSnapshot) × (book_snapshots depth books ids ≡ some l)
      × (map (λ s. s.instrument_id) l ≡ ids)
unfolding book_snapshots contains book_snapshot
book_snapshots-total depth books [] a = ([], refl, refl)
book_snapshots-total depth books (i ∷ ids) a =
    let (l, done, same) = book_snapshots-total depth books ids a.1 in
    elim (Option-cases (find i books)) [
      | inl missing ↦ absurd (ground arith)
      | inr (b, found) ↦
          (book_snapshot depth i b ∷ l, rw (found, done, book_snapshots), ap (◌∷◌ i) same)
    ]

-- A snapshot never fails: it lists each book of the manager, by ascending instrument id.
pub snapshot-total :
    (event_count timestamp depth : ℕ) (m : BookManager)
    → (s : BookManagerSnapshot) × (snapshot event_count timestamp depth m ≡ some s)
      × IsAscending (map (λ b. b.instrument_id) s.instruments)
      × Perm (map (λ b. b.instrument_id) s.instruments) (instrument_ids m.books_by_instrument)
unfolding snapshot
snapshot-total event_count timestamp depth m =
    let ids = instrument_ids m.books_by_instrument in
    let (l, done, same) =
      book_snapshots-total depth m.books_by_instrument (sort ids)
        (AllFound-sort m.books_by_instrument ids (AllFound-ids m.books_by_instrument)) in
    (
      record {
        event_count = event_count;
        timestamp = timestamp;
        processed_events = m.processed_events;
        unresolved_events = m.unresolved_events;
        instruments = l;
      },
      rw (done, snapshot),
      rw same (sort-IsAscending ids),
      rw same (sort-perm ids),
    )
