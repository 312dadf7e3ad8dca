-- ===== src/Book/LimitOrderBook/Counters.antt =====
-- The sample of unknown-order diagnostics against the counters of a book.
use Prim.Native.String.{String}
use backtester_lab.Base.{
  ℕ, ◌+◌, ◌<◌, ◌≡◌, [], ◌∷◌, arith, min, u64_mod, leb, length, length-append, Bool-cases,
  Option-cases, inl, inr, nat_eq,
}
use backtester_lab.Domain.{Action, MarketDataEvent, has_valid_resting_state}
use backtester_lab.Map.{find}
use backtester_lab.Book.LimitOrderBook.{
  LimitOrderBook, diagnostic_of, record_unknown_order_diagnostic, remove_order, place_order,
  apply_add, apply_cancel, apply_modify, apply_clear, apply_trade, apply_fill, dispatch, apply,
}

-- All events about an unknown order.
abbrev pub unknown_count : LimitOrderBook → ℕ
unknown_count b =
    b.unknown_modify_recovered_as_add_count + b.unknown_modify_skipped_count
    + b.unknown_cancel_skipped_count

-- The sample holds one diagnostic for each such event, up to 32.
pub record IsSampled (b : LimitOrderBook) : Type 0 where
  pub sampled : length b.unknown_order_diagnostics ≡ min 32 (unknown_count b)

-- One more unknown order, counted before it is recorded.
record_unknown-IsSampled :
    (e : MarketDataEvent) (operation decision : String) (n : ℕ) (b : LimitOrderBook)
    → length b.unknown_order_diagnostics ≡ min 32 n
    → unknown_count b ≡ n + 1
    → IsSampled (record_unknown_order_diagnostic e operation decision b)
unfolding record_unknown_order_diagnostic
record_unknown-IsSampled e operation decision n b old one =
    elim (Bool-cases (leb 32 (length b.unknown_order_diagnostics))) [
      | inl full ↦ rw full (record { sampled = ground arith })
      | inr room ↦ rw room (record {
        sampled = ground (
          arith,
          length-append b.unknown_order_diagnostics (diagnostic_of e operation decision ∷ []),
        );
      })
    ]

apply_add-IsSampled :
    (e : MarketDataEvent) (b : LimitOrderBook) → IsSampled b → IsSampled (apply_add e b)
unfolding apply_add remove_order place_order
apply_add-IsSampled e b s = ground arith

apply_cancel-IsSampled :
    (e : MarketDataEvent) (b : LimitOrderBook)
    → IsSampled b
    → unknown_count b + 1 < u64_mod
    → IsSampled (apply_cancel e b)
unfolding apply_cancel
apply_cancel-IsSampled e b s room = elim (Option-cases (find e.order_id b.orders)) [
  | inl missing ↦
      rw (missing, apply_cancel)
        (record_unknown-IsSampled e _ _ (unknown_count b) _ s.sampled (omega arith))
  | inr (v, found) ↦ ground arith
]

apply_modify-IsSampled :
    (e : MarketDataEvent) (b : LimitOrderBook)
    → IsSampled b
    → unknown_count b + 1 < u64_mod
    → IsSampled (apply_modify e b)
unfolding apply_modify place_order
apply_modify-IsSampled e b s room = elim (Option-cases (find e.order_id b.orders)) [
  | inl missing ↦ elim (Bool-cases (has_valid_resting_state e)) [
    | inl ok ↦
        rw (missing, apply_modify, ok)
          (apply_add-IsSampled e _
            (record_unknown-IsSampled e _ _ (unknown_count b) _ s.sampled (omega arith)))
    | inr bad ↦
        rw (missing, apply_modify, bad)
          (record_unknown-IsSampled e _ _ (unknown_count b) _ s.sampled (omega arith))
  ]
  | inr (v, found) ↦ ground arith
]

-- Every event keeps the sample in step with the counters, until a counter would wrap.
pub apply-IsSampled :
    (e : MarketDataEvent) (b : LimitOrderBook)
    → IsSampled b
    → unknown_count b + 1 < u64_mod
    → IsSampled (apply e b)
unfolding apply apply_clear apply_trade apply_fill
apply-IsSampled e b s room = dispatched e.action
  where
    dispatched : (a : Action) → IsSampled (dispatch a e b)
    dispatched Action.add = apply_add-IsSampled e b s
    dispatched Action.modify = apply_modify-IsSampled e b s room
    dispatched Action.cancel = apply_cancel-IsSampled e b s room
    dispatched Action.clear = record { sampled = s.sampled }
    dispatched Action.trade = record { sampled = s.sampled }
    dispatched Action.fill = record { sampled = s.sampled }
    dispatched Action.none = s
