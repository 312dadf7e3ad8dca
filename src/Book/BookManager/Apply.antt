-- ===== src/Book/BookManager/Apply.antt =====
-- The routing of a whole manager, for `apply` and for feeds.
use backtester_lab.Base.{
  ℕ, ◌≡◌, refl, ◌∙◌, true, List, [], ◌∷◌, none, some, arith, ◌==◌, nat_eq, nat_beq_iff,
  Option-cases, Bool-cases, ◌⊎◌, inl, inr,
}
use backtester_lab.Domain.{MarketDataEvent}
use backtester_lab.Map.{Map, find, contains, insert, erase}
use backtester_lab.Map.Laws.{find-erase_self}
use backtester_lab.Book.LimitOrderBook.{LimitOrderBook, new_book, contains_order}
use backtester_lab.Book.BookManager.{
  BookManager, new_manager, get_or_create_book, cancel_in, may_move,
  remove_previous_instrument_mapping, resolve_instrument_id, apply_routed, apply,
}
use backtester_lab.Book.BookManager.Contains.{new_book-IsKeyed}
use backtester_lab.Book.BookManager.Routing.{
  holds, IsRouted, holds-insert, IsKeyed-insert, cancel_in-IsRouted,
}
use backtester_lab.Book.BookManager.Cases.{updated, updated-IsRouted}

-- The routing of a manager.
abbrev pub Routed : BookManager → Type 0
Routed m = IsRouted m.books_by_instrument m.order_to_instrument

-- An empty book for a new instrument holds nothing.
holds-new :
    (t : ℕ) (books : Map ℕ LimitOrderBook) (i o : ℕ)
    → find t books ≡ none
    → holds i o (insert t (new_book t) books) ≡ holds i o books
holds-new t books i o missing =
    holds-insert i o t (new_book t) books
    ∙ unfold holds contains_order contains new_book find in ground (arith, nat_beq_iff t i)

create-IsRouted :
    (t : ℕ) (books : Map ℕ LimitOrderBook) (mapping : Map ℕ ℕ)
    → IsRouted books mapping
    → find t books ≡ none
    → IsRouted (insert t (new_book t) books) mapping
create-IsRouted t books mapping v missing = record {
  keyed = IsKeyed-insert t (new_book t) books (new_book-IsKeyed t) v.keyed;
  distinct = v.distinct;
  routed = λ o i h. holds-new t books i o missing ∙ v.routed o i h;
  known = λ o i h. v.known o i (ground (arith, holds-new t books i o missing));
}

-- The order of an event that may move it is mapped to no other instrument.
abbrev IsFree : MarketDataEvent → BookManager → Type 0
IsFree e m =
    may_move e ≡ true
    → (find e.order_id m.order_to_instrument ≡ none)
      ⊎ (find e.order_id m.order_to_instrument ≡ some e.instrument_id)

apply_routed-Routed :
    (e : MarketDataEvent) (m : BookManager) → Routed m → IsFree e m → Routed (apply_routed e m)
unfolding apply_routed updated
apply_routed-Routed e m v free = elim (Option-cases (find e.instrument_id m.books_by_instrument)) [
  | inl missing ↦
      rw (missing, apply_routed, get_or_create_book)
        (updated-IsRouted e (new_book e.instrument_id)
          (insert e.instrument_id (new_book e.instrument_id) m.books_by_instrument)
          m.order_to_instrument (create-IsRouted _ _ _ v missing) (new_book-IsKeyed e.instrument_id)
          (λ o.
            holds-insert e.instrument_id o e.instrument_id (new_book e.instrument_id)
              m.books_by_instrument
            ∙ ground (arith, nat_beq_iff e.instrument_id e.instrument_id))
          m.processed_events m.unresolved_events e.action refl free)
  | inr (b, found) ↦
      rw (found, apply_routed, get_or_create_book)
        (updated-IsRouted e b m.books_by_instrument m.order_to_instrument v
          (v.keyed e.instrument_id b found) (λ o. unfold holds in ground arith) m.processed_events
          m.unresolved_events e.action refl free)
]

mapping-cancel_in :
    (previous : ℕ) (e : MarketDataEvent) (m : BookManager)
    → (cancel_in previous e m).order_to_instrument ≡ m.order_to_instrument
unfolding cancel_in
mapping-cancel_in previous e m = ground arith

moved-Routed :
    (previous : ℕ) (e : MarketDataEvent) (m : BookManager)
    → Routed m
    → find e.order_id m.order_to_instrument ≡ some previous
    → let mapping = erase e.order_id (cancel_in previous e m).order_to_instrument in
      IsRouted (cancel_in previous e m).books_by_instrument mapping
      × (find e.order_id mapping ≡ none)
moved-Routed previous e m v mapped = rw (mapping-cancel_in previous e m) (
  cancel_in-IsRouted previous e m v mapped,
  find-erase_self e.order_id m.order_to_instrument v.distinct,
)

remove_previous-Routed :
    (e : MarketDataEvent) (m : BookManager)
    → Routed m
    → Routed (remove_previous_instrument_mapping e e.instrument_id m)
      × IsFree e (remove_previous_instrument_mapping e e.instrument_id m)
unfolding remove_previous_instrument_mapping
remove_previous-Routed e m v = elim (Bool-cases (may_move e)) [
  | inl moves ↦ elim (Option-cases (find e.order_id m.order_to_instrument)) [
    | inl unmapped ↦ rw (moves, unmapped, remove_previous_instrument_mapping) (v, λ h. inl unmapped)
    | inr (previous, mapped) ↦ elim (Bool-cases (previous == e.instrument_id)) [
      | inl stays ↦
          rw (moves, mapped, remove_previous_instrument_mapping, stays)
            (v, λ h. inr (ground (arith, nat_beq_iff previous e.instrument_id)))
      | inr leaves ↦
          rw (moves, mapped, remove_previous_instrument_mapping, leaves)
            (let moved = moved-Routed previous e m v mapped in (moved.0, λ h. inl moved.1))
    ]
  ]
  | inr stays ↦ rw stays (v, λ h. cc)
]

resolved-Routed :
    (e : MarketDataEvent) (m : BookManager)
    → Routed m
    → Routed (apply_routed e (remove_previous_instrument_mapping e e.instrument_id m))
resolved-Routed e m v =
    let (moved, free) = remove_previous-Routed e m v in
    apply_routed-Routed e (remove_previous_instrument_mapping e e.instrument_id m) moved free

-- Every event, resolved or not, keeps the routing: an order id is mapped to an instrument exactly if
-- the book of that instrument holds the order.
pub apply-Routed : (e : MarketDataEvent) (m : BookManager) → Routed m → Routed (apply e m)
unfolding apply
apply-Routed e m v = elim (Bool-cases (resolve_instrument_id e m == 0)) [
  | inl unresolved ↦ unfold resolve_instrument_id in rw unresolved v
  | inr resolved ↦ unfold resolve_instrument_id in rw resolved (resolved-Routed _ _ v)
]

pub new_manager-Routed : Routed new_manager
unfolding holds find
new_manager-Routed = record {
  keyed = λ i b h. ground arith;
  distinct = tt;
  routed = λ o i h. ground arith;
  known = λ o i h. ground arith;
}

-- A whole feed.
unfoldable pub run : List MarketDataEvent → BookManager → BookManager
run [] m = m
run (e ∷ es) m = run es (apply e m)

pub run-Routed : (es : List MarketDataEvent) (m : BookManager) → Routed m → Routed (run es m)
unfolding run
run-Routed [] m v = v
run-Routed (e ∷ es) m v = run-Routed es (apply e m) (apply-Routed e m v)

-- After any feed an order rests in the book of one instrument at most, also when Add and Modify
-- events moved it from one instrument to another.
pub run_unique :
    (es : List MarketDataEvent) (o i j : ℕ)
    → holds i o (run es new_manager).books_by_instrument ≡ true
    → holds j o (run es new_manager).books_by_instrument ≡ true
    → i ≡ j
run_unique es o i j h k =
    let v = run-Routed es new_manager new_manager-Routed in
    ground (arith, v.known o i h, v.known o j k)
