-- ===== src/Lob/EngineView/Sums.antt =====
-- The synthetic book of each instrument against the engine's own orders there.
use backtester_lab.Base.{
  ℕ, ◌+◌, ◌<◌, ◌≤◌, ◌≡◌, subst, false, none, some, arith, ◌==◌, nat_eq, nat_beq_iff, u64_mod,
  if◌then◌else◌, beq_refl, Bool-cases, inl, inr,
}
use backtester_lab.Base.Int.{ℤ}
use backtester_lab.Domain.{Side}
use backtester_lab.Map.{Map, find, insert, erase, sum_by}
use backtester_lab.Map.Laws.{find-insert}
use backtester_lab.Map.Sums.{sum_by-insert, sum_by-erase, sum_by-le}
use backtester_lab.Sides.{Sides, add_volume, remove_volume}
use backtester_lab.Sides.Aggregate.{IsSum, size_at, IsSum-insert, IsSum-erase}
use backtester_lab.Lob.EngineView.{
  EngineView, SyntheticOrder, synthetic_book, add_synthetic_order_with_id,
}

abbrev pub side_of : SyntheticOrder → Side
side_of o = o.side

abbrev pub price_of : SyntheticOrder → ℤ
price_of o = o.price

-- The size of an order at one instrument.
abbrev pub size_for : ℕ → SyntheticOrder → ℕ
size_for i o = if o.instrument_id == i then o.size else 0

abbrev pub size_of : SyntheticOrder → ℕ
size_of o = o.size

abbrev pub SumsFor : ℕ → Sides → Map ℕ SyntheticOrder → Type 0
SumsFor i s orders = IsSum side_of price_of (size_for i) s orders

size_for-le : (i : ℕ) (o : SyntheticOrder) → size_for i o ≤ size_of o
size_for-le i o = ground arith

-- An order of another instrument changes no sum.
SumsFor-insert_other :
    (i k : ℕ) (o : SyntheticOrder) (s : Sides) (orders : Map ℕ SyntheticOrder)
    → SumsFor i s orders
    → find k orders ≡ none
    → (o.instrument_id == i) ≡ false
    → SumsFor i s (insert k o orders)
unfolding size_at
SumsFor-insert_other i k o s orders h fresh other = record {
  ladders = h.ladders;
  volumes = λ t p.
      ground (
        arith,
        h.volumes t p,
        sum_by-insert (size_at side_of price_of (size_for i) t p) k o orders,
      );
}

SumsFor-erase_other :
    (i k : ℕ) (o : SyntheticOrder) (s : Sides) (orders : Map ℕ SyntheticOrder)
    → SumsFor i s orders
    → find k orders ≡ some o
    → (o.instrument_id == i) ≡ false
    → SumsFor i s (erase k orders)
unfolding size_at
SumsFor-erase_other i k o s orders h found other = record {
  ladders = h.ladders;
  volumes = λ t p.
      ground
        (arith, h.volumes t p, sum_by-erase (size_at side_of price_of (size_for i) t p) k orders);
}

-- Lookups of books in a view with one book replaced.
synthetic_book-insert :
    (i j : ℕ) (s : Sides) (v : EngineView)
    → synthetic_book i (record v { synthetic_books = insert j s v.synthetic_books })
      ≡ (if j == i then s else synthetic_book i v)
unfolding synthetic_book
synthetic_book-insert i j s v = ground (arith, find-insert i j s v.synthetic_books)

-- What an operation on one order gives for its own instrument and leaves for the others.
by_instrument :
    (o : SyntheticOrder) (P : ℕ → Type 0)
    → P o.instrument_id
    → ((i : ℕ) → (o.instrument_id == i) ≡ false → P i)
    → (i : ℕ) → P i
by_instrument o P here there i = elim (Bool-cases (o.instrument_id == i)) [
  | inl same ↦ subst P ((nat_beq_iff o.instrument_id i).0 same) here
  | inr other ↦ there i other
]

size_for_self : (o : SyntheticOrder) → size_for o.instrument_id o ≡ o.size
size_for_self o = rw (beq_refl o.instrument_id)

pub add-SumsFor :
    (k : ℕ) (o : SyntheticOrder) (v : EngineView)
    → ((i : ℕ) → SumsFor i (synthetic_book i v) v.own_orders)
    → find k v.own_orders ≡ none
    → 0 < o.size
    → sum_by size_of v.own_orders + o.size < u64_mod
    → (i : ℕ)
    → SumsFor i (synthetic_book i (add_synthetic_order_with_id k o v)) (insert k o v.own_orders)
unfolding add_synthetic_order_with_id
add-SumsFor k o v h fresh positive fits = by_instrument o _ here there
  where
    i : ℕ
    i = o.instrument_id

    added :
        SumsFor i
          (add_volume o.side o.price (size_for i o) (synthetic_book i v))
          (insert k o v.own_orders)
    added =
        IsSum-insert side_of price_of (size_for i) (synthetic_book i v) v.own_orders k o (h i) fresh
          (omega (arith, size_for_self o))
          (omega
            (arith, sum_by-le (size_for i) size_of (size_for-le i) v.own_orders, size_for_self o))

    here :
        SumsFor i (synthetic_book i (add_synthetic_order_with_id k o v)) (insert k o v.own_orders)
    here =
        unfold add_synthetic_order_with_id in
        rw (synthetic_book-insert, beq_refl i)
          (subst
            (λ n.
              SumsFor i (add_volume o.side o.price n (synthetic_book i v))
                (insert k o v.own_orders))
            (size_for_self o) added)

    there :
        (j : ℕ)
        → (o.instrument_id == j) ≡ false
        → SumsFor j (synthetic_book j (add_synthetic_order_with_id k o v)) (insert k o v.own_orders)
    there j other =
        unfold add_synthetic_order_with_id in
        rw (synthetic_book-insert, other)
          (SumsFor-insert_other j k o (synthetic_book j v) v.own_orders (h j) fresh other)

pub cancel-SumsFor :
    (k : ℕ) (o : SyntheticOrder) (v : EngineView)
    → ((i : ℕ) → SumsFor i (synthetic_book i v) v.own_orders)
    → find k v.own_orders ≡ some o
    → (i : ℕ)
    → SumsFor i
        (synthetic_book i (record v {
          synthetic_books =
              insert o.instrument_id
                (remove_volume o.side o.price o.size (synthetic_book o.instrument_id v))
                v.synthetic_books;
        }))
        (erase k v.own_orders)
cancel-SumsFor k o v h found = by_instrument o _ here there
  where
    i : ℕ
    i = o.instrument_id

    removed :
        SumsFor i
          (remove_volume o.side o.price (size_for i o) (synthetic_book i v))
          (erase k v.own_orders)
    removed =
        IsSum-erase side_of price_of (size_for i) (synthetic_book i v) v.own_orders k o (h i) found

    after : EngineView
    after = record v {
      synthetic_books =
          insert i (remove_volume o.side o.price o.size (synthetic_book i v)) v.synthetic_books;
    }

    here : SumsFor i (synthetic_book i after) (erase k v.own_orders)
    here =
        rw (synthetic_book-insert, beq_refl i)
          (subst
            (λ n.
              SumsFor i (remove_volume o.side o.price n (synthetic_book i v))
                (erase k v.own_orders))
            (size_for_self o) removed)

    there :
        (j : ℕ)
        → (o.instrument_id == j) ≡ false
        → SumsFor j (synthetic_book j after) (erase k v.own_orders)
    there j other =
        rw (synthetic_book-insert, other)
          (SumsFor-erase_other j k o (synthetic_book j v) v.own_orders (h j) found other)
