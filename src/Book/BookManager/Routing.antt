-- ===== src/Book/BookManager/Routing.antt =====
-- The invariant of the manager: an order id is mapped to an instrument exactly if that instrument's
-- book holds the order.
use backtester_lab.Base.{
  ℕ, ◌≡◌, refl, ◌∙◌, Bool, true, false, ◌&&◌, none, some, arith, if◌then◌else◌, ◌==◌, nat_eq,
  nat_beq_iff, Option-cases, Bool-cases, subst, inl, inr,
}
use backtester_lab.Domain.{MarketDataEvent}
use backtester_lab.Map.{Map, find, insert, erase, Distinct}
use backtester_lab.Map.Laws.{find-insert, find-erase, erase-Distinct}
use backtester_lab.Book.LimitOrderBook
use backtester_lab.Book.LimitOrderBook.{LimitOrderBook, new_book, contains_order}
use backtester_lab.Book.BookManager.{BookManager, cancel_previous, cancel_in}
use backtester_lab.Book.BookManager.Contains.{IsKeyed, apply-IsKeyed, contains-cancel}

-- Whether the book of an instrument holds an order.
unfoldable pub holds : ℕ → ℕ → Map ℕ LimitOrderBook → Bool
holds i o books = elim (find i books) [ none ↦ false | some b ↦ contains_order o b ]

pub record IsRouted (books : Map ℕ LimitOrderBook) (mapping : Map ℕ ℕ) : Type 0 where
  pub keyed : (i : ℕ) (b : LimitOrderBook) → find i books ≡ some b → IsKeyed b
  pub distinct : Distinct mapping
  pub routed : (o i : ℕ) → find o mapping ≡ some i → holds i o books ≡ true
  pub known : (o i : ℕ) → holds i o books ≡ true → find o mapping ≡ some i

pub holds-insert :
    (i o t : ℕ) (b : LimitOrderBook) (books : Map ℕ LimitOrderBook)
    → holds i o (insert t b books) ≡ (if t == i then contains_order o b else holds i o books)
unfolding holds
holds-insert i o t b books = ground (arith, find-insert i t b books)

holds-cancel_in :
    (previous : ℕ) (e : MarketDataEvent) (m : BookManager) (i o : ℕ)
    → ((b : LimitOrderBook) → find previous m.books_by_instrument ≡ some b → IsKeyed b)
    → holds i o (cancel_in previous e m).books_by_instrument
      ≡ (if (previous == i) && (e.order_id == o) then false else holds i o m.books_by_instrument)
unfolding cancel_in
holds-cancel_in previous e m i o keyed = elim (Option-cases (find previous m.books_by_instrument)) [
  | inl missing ↦ rw (missing, cancel_in) (unfold holds in ground (arith, nat_beq_iff previous i))
  | inr (b, found) ↦
      let cancel = cancel_previous previous e in
      let after = contains-cancel cancel b o refl (keyed b found).distinct in
      rw (found, cancel_in)
        (holds-insert i o previous (LimitOrderBook.apply cancel b) m.books_by_instrument
          ∙ unfold holds in
            ground (arith, nat_beq_iff previous i, nat_beq_iff e.order_id o, after.0, after.1))
]

pub IsKeyed-insert :
    (t : ℕ) (b : LimitOrderBook) (books : Map ℕ LimitOrderBook)
    → IsKeyed b
    → ((i : ℕ) (c : LimitOrderBook) → find i books ≡ some c → IsKeyed c)
    → (i : ℕ) (c : LimitOrderBook) → find i (insert t b books) ≡ some c
    → IsKeyed c
IsKeyed-insert t b books new old i c h = elim (Bool-cases (t == i)) [
  | inl same ↦ subst IsKeyed (ground (arith, find-insert i t b books)) new
  | inr other ↦ old i c (ground (arith, find-insert i t b books))
]

IsKeyed-cancel_in :
    (previous : ℕ) (e : MarketDataEvent) (m : BookManager)
    → ((i : ℕ) (c : LimitOrderBook) → find i m.books_by_instrument ≡ some c → IsKeyed c)
    → (i : ℕ) (c : LimitOrderBook) → find i (cancel_in previous e m).books_by_instrument ≡ some c
    → IsKeyed c
unfolding cancel_in
IsKeyed-cancel_in previous e m old = elim (Option-cases (find previous m.books_by_instrument)) [
  | inl missing ↦ rw (missing, cancel_in) old
  | inr (b, found) ↦
      rw (found, cancel_in)
        (IsKeyed-insert previous _ m.books_by_instrument
          (apply-IsKeyed (cancel_previous previous e) b (old previous b found)) old)
]

-- The order leaves its previous book, and its mapping goes.
pub cancel_in-IsRouted :
    (previous : ℕ) (e : MarketDataEvent) (m : BookManager)
    → IsRouted m.books_by_instrument m.order_to_instrument
    → find e.order_id m.order_to_instrument ≡ some previous
    → IsRouted (cancel_in previous e m).books_by_instrument (erase e.order_id m.order_to_instrument)
cancel_in-IsRouted previous e m v mapped = record {
  keyed = IsKeyed-cancel_in previous e m v.keyed;
  distinct = erase-Distinct e.order_id m.order_to_instrument v.distinct;
  routed = λ o i h. ground (
    arith,
    find-erase o e.order_id m.order_to_instrument v.distinct,
    holds-cancel_in previous e m i o (v.keyed previous),
    v.routed o i,
  );
  known = λ o i h. ground (
    arith,
    nat_beq_iff e.order_id o,
    nat_beq_iff previous i,
    find-erase o e.order_id m.order_to_instrument v.distinct,
    holds-cancel_in previous e m i o (v.keyed previous),
    v.known o i,
  );
}
