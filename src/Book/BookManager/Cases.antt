-- ===== src/Book/BookManager/Cases.antt =====
-- What each action does to the routing, once a book of the manager has taken the event.
use backtester_lab.Base.{
  ℕ, ◌≡◌, Bool, true, false, not, ◌&&◌, ◌||◌, none, some, arith, if◌then◌else◌, ◌==◌, nat_eq,
  nat_beq_iff, ◌⊎◌, inl, inr, subst, sym,
}
use backtester_lab.Domain.{Action, MarketDataEvent, has_valid_resting_state}
use backtester_lab.Map.{Map, find, contains, insert}
use backtester_lab.Map.Laws.{
  find-insert, find-erase, find-erase_if, unless, insert-Distinct, erase-Distinct,
  erase_if-Distinct,
}
use backtester_lab.Book.LimitOrderBook
use backtester_lab.Book.LimitOrderBook.{LimitOrderBook, new_book, contains_order}
use backtester_lab.Book.BookManager.{
  BookManager, update_on, may_move, erase_order_mapping_if_matches,
  erase_order_mappings_for_instrument,
}
use backtester_lab.Book.BookManager.Contains.{
  IsKeyed, apply-IsKeyed, kept, contains-apply, contains-cancel,
}
use backtester_lab.Book.BookManager.Routing.{holds, IsRouted, holds-insert, IsKeyed-insert}

-- One book `b`, held at instrument `t`, takes the event.
module _ (e : MarketDataEvent) (b : LimitOrderBook) (books : Map ℕ LimitOrderBook)
    (mapping : Map ℕ ℕ) (v : IsRouted books mapping) (keyed : IsKeyed b)
    (same : (o : ℕ) → holds e.instrument_id o books ≡ contains_order o b) where
  books' : Map ℕ LimitOrderBook
  books' = insert e.instrument_id (LimitOrderBook.apply e b) books

  keyed' : (i : ℕ) (c : LimitOrderBook) → find i books' ≡ some c → IsKeyed c
  unfolding books'
  keyed' = IsKeyed-insert e.instrument_id _ books (apply-IsKeyed e b keyed) v.keyed

  holds-after :
      (i o : ℕ)
      → holds i o books' ≡ (
          if e.instrument_id == i
          then contains_order o (LimitOrderBook.apply e b)
          else holds i o books)
  unfolding books'
  holds-after i o = holds-insert i o e.instrument_id (LimitOrderBook.apply e b) books

  no_zero : contains_order 0 (LimitOrderBook.apply e b) ≡ false
  unfolding contains_order contains
  no_zero = ground (arith, (apply-IsKeyed e b keyed).no_zero)

  -- An Add or a Modify adds the event's order, if its state is full.
  placed : ℕ → Bool
  placed o = (has_valid_resting_state e && (e.order_id == o)) || contains_order o b

  contains-placed :
      (e.action ≡ Action.add) ⊎ (e.action ≡ Action.modify)
      → (o : ℕ) → contains_order o (LimitOrderBook.apply e b) ≡ placed o
  unfolding placed kept
  contains-placed (inl h) o = contains-apply Action.add e b o h keyed.distinct
  contains-placed (inr h) o = contains-apply Action.modify e b o h keyed.distinct

  placed-IsRouted :
      ((o : ℕ) → contains_order o (LimitOrderBook.apply e b) ≡ placed o)
      → (has_valid_resting_state e ≡ true
          → (find e.order_id mapping ≡ none) ⊎ (find e.order_id mapping ≡ some e.instrument_id))
      → IsRouted books' (
          if not (e.order_id == 0) && contains_order e.order_id (LimitOrderBook.apply e b)
          then insert e.order_id e.instrument_id mapping
          else mapping)
  unfolding placed
  placed-IsRouted after free = record {
    keyed = keyed';
    distinct =
        ground (arith, insert-Distinct e.order_id e.instrument_id mapping v.distinct, v.distinct);
    routed = λ o i h. ground (
      arith,
      find-insert o e.order_id e.instrument_id mapping,
      v.routed o i,
      holds-after i o,
      same o,
      after o,
      nat_beq_iff e.order_id o,
      nat_beq_iff e.instrument_id i,
    );
    known = λ o i h. ground (
      arith,
      find-insert o e.order_id e.instrument_id mapping,
      v.known o i,
      holds-after i o,
      same o,
      after o,
      after e.order_id,
      same e.order_id,
      v.known e.order_id e.instrument_id,
      free,
      no_zero,
      nat_beq_iff e.order_id o,
      nat_beq_iff e.order_id 0,
      nat_beq_iff e.instrument_id i,
    );
  }

  no_zero_before : contains_order 0 b ≡ false
  unfolding contains_order contains
  no_zero_before = ground (arith, keyed.no_zero)

  module _ (p u : ℕ) where
    -- The manager once the book has taken the event.
    unfoldable pub stepped : BookManager
    stepped = record {
      books_by_instrument = insert e.instrument_id (LimitOrderBook.apply e b) books;
      order_to_instrument = mapping;
      processed_events = p;
      unresolved_events = u;
    }

    unfoldable pub updated : Action → BookManager
    unfolding stepped
    updated a = update_on a e (LimitOrderBook.apply e b) stepped

    -- Where the mapping of an order stands after a cancel.
    find-cancelled :
        (o : ℕ)
        → find o (updated Action.cancel).order_to_instrument ≡ (
            if (e.order_id == o) && not (e.order_id == 0)
            then if contains_order e.order_id (LimitOrderBook.apply e b)
              then some e.instrument_id
              else unless (λ i. i == e.instrument_id) (find e.order_id mapping)
            else find o mapping)
    unfolding updated update_on erase_order_mapping_if_matches
    find-cancelled o = ground (
      arith,
      find-insert o e.order_id e.instrument_id mapping,
      find-erase o e.order_id mapping v.distinct,
      nat_beq_iff e.order_id o,
    )

    cancelled-IsRouted :
        e.action ≡ Action.cancel → IsRouted books' (updated Action.cancel).order_to_instrument
    cancelled-IsRouted action = record {
      keyed = keyed';
      distinct =
          unfold updated update_on erase_order_mapping_if_matches in
          ground (
            arith,
            insert-Distinct e.order_id e.instrument_id mapping v.distinct,
            erase-Distinct e.order_id mapping v.distinct,
            v.distinct,
          );
      routed = λ o i h. ground (
        arith,
        find-cancelled o,
        v.routed o i,
        holds-after i o,
        same o,
        (contains-cancel e b o action keyed.distinct).0,
        no_zero_before,
        nat_beq_iff e.order_id o,
        nat_beq_iff e.order_id 0,
        nat_beq_iff e.instrument_id i,
        nat_beq_iff i e.instrument_id,
      );
      known = λ o i h. ground (
        arith,
        find-cancelled o,
        v.known o i,
        v.known o e.instrument_id,
        holds-after i o,
        same o,
        (contains-cancel e b o action keyed.distinct).0,
        kept_cancel o,
        no_zero,
        nat_beq_iff e.order_id o,
        nat_beq_iff e.order_id 0,
        nat_beq_iff e.instrument_id i,
        nat_beq_iff i e.instrument_id,
      );
    }
      where
        kept_cancel :
            (o : ℕ)
            → contains_order o (LimitOrderBook.apply e b)
              ≡ (contains_order o b && contains_order o (LimitOrderBook.apply e b))
        kept_cancel o = unfold kept in contains-apply Action.cancel e b o action keyed.distinct

    cleared-IsRouted :
        e.action ≡ Action.clear → IsRouted books' (updated Action.clear).order_to_instrument
    unfolding updated update_on erase_order_mappings_for_instrument
    cleared-IsRouted action = record {
      keyed = keyed';
      distinct = erase_if-Distinct _ mapping v.distinct;
      routed = λ o i h. ground (
        arith,
        find-erase_if (λ j. j == e.instrument_id) o mapping v.distinct,
        v.routed o i,
        holds-after i o,
        nat_beq_iff i e.instrument_id,
        nat_beq_iff e.instrument_id i,
      );
      known = λ o i h. ground (
        arith,
        find-erase_if (λ j. j == e.instrument_id) o mapping v.distinct,
        v.known o i,
        holds-after i o,
        gone o,
        nat_beq_iff i e.instrument_id,
        nat_beq_iff e.instrument_id i,
      );
    }
      where
        gone : (o : ℕ) → contains_order o (LimitOrderBook.apply e b) ≡ false
        gone o = unfold kept in contains-apply Action.clear e b o action keyed.distinct

    kept-IsRouted :
        ((o : ℕ) → contains_order o (LimitOrderBook.apply e b) ≡ contains_order o b)
        → IsRouted books' mapping
    kept-IsRouted after = record {
      keyed = keyed';
      distinct = v.distinct;
      routed = λ o i h.
          ground
            (arith, v.routed o i, holds-after i o, same o, after o, nat_beq_iff e.instrument_id i);
      known = λ o i h.
          ground
            (arith, v.known o i, holds-after i o, same o, after o, nat_beq_iff e.instrument_id i);
    }

    books-updated : (a : Action) → (updated a).books_by_instrument ≡ books'
    unfolding updated update_on erase_order_mapping_if_matches erase_order_mappings_for_instrument
        books'
    books-updated a = ground arith

    -- All actions together.
    pub updated-IsRouted :
        (a : Action)
        → e.action ≡ a
        → (may_move e ≡ true
            → (find e.order_id mapping ≡ none) ⊎ (find e.order_id mapping ≡ some e.instrument_id))
        → IsRouted (updated a).books_by_instrument (updated a).order_to_instrument
    unfolding updated update_on
    updated-IsRouted a action free =
        subst (λ x. IsRouted x (updated a).order_to_instrument) (sym (books-updated a))
          (by_action a action)
      where
        moves :
            (e.action ≡ Action.add) ⊎ (e.action ≡ Action.modify)
            → has_valid_resting_state e ≡ true
            → may_move e ≡ true
        moves h valid = unfold may_move in ground arith

        placed_in :
            (e.action ≡ Action.add) ⊎ (e.action ≡ Action.modify)
            → (a : Action)
            → (updated a).order_to_instrument ≡ (
                if not (e.order_id == 0) && contains_order e.order_id (LimitOrderBook.apply e b)
                then insert e.order_id e.instrument_id mapping
                else mapping)
            → IsRouted books' (updated a).order_to_instrument
        placed_in h a eq =
            subst (IsRouted books') (sym eq)
              (placed-IsRouted (contains-placed h) (λ valid. free (moves h valid)))

        by_action : (a : Action) → e.action ≡ a → IsRouted books' (updated a).order_to_instrument
        by_action Action.add h = placed_in (inl h) Action.add (ground arith)
        by_action Action.modify h = placed_in (inr h) Action.modify (ground arith)
        by_action Action.cancel h = cancelled-IsRouted h
        by_action Action.clear h = cleared-IsRouted h
        by_action Action.trade h =
            kept-IsRouted (λ o. unfold kept in contains-apply Action.trade e b o h keyed.distinct)
        by_action Action.fill h =
            kept-IsRouted (λ o. unfold kept in contains-apply Action.fill e b o h keyed.distinct)
        by_action Action.none h =
            kept-IsRouted (λ o. unfold kept in contains-apply Action.none e b o h keyed.distinct)
