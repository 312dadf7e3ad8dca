-- ===== src/Backtest/MarketDataEventAdapter/Conditions.antt =====
-- src/backtest/MarketDataEventAdapter.cpp: the tests on events, as conditions on them.
use backtester_lab.Base.{
  ℕ, ◌≡◌, ◌↔◌, ◌⊎◌, refl, true, List, [], ◌∷◌, ◌==◌, arith, nat_eq, nat_beq_iff, Bool-cases, inl,
  inr,
}
use backtester_lab.Domain.{Action, MarketDataEvent, action_beq}
use backtester_lab.Backtest.MarketDataEventAdapter.{
  MarketDataEventAdapter, accepts, in_filter, is_lob_mutating_action, is_trade_like_action,
}

abbrev pub Occurs : ℕ → List ℕ → Type 0
Occurs id [] = ⊥
Occurs id (x ∷ xs) = (x ≡ id) ⊎ Occurs id xs

-- The actions that change books.
abbrev pub ChangesBooks : Action → Type 0
ChangesBooks Action.add = Unit
ChangesBooks Action.modify = Unit
ChangesBooks Action.cancel = Unit
ChangesBooks Action.clear = Unit
ChangesBooks _ = ⊥

-- The actions that are trades.
abbrev pub IsTrade : Action → Type 0
IsTrade Action.trade = Unit
IsTrade Action.fill = Unit
IsTrade _ = ⊥

-- An event gets through a filter that is empty or has its instrument; a clear of all instruments gets
-- through every filter.
abbrev pub GetsThrough : MarketDataEvent → List ℕ → Type 0
GetsThrough e filter =
    (filter ≡ [])
    ⊎ (Occurs e.instrument_id filter ⊎ ((e.action ≡ Action.clear) × (e.instrument_id ≡ 0)))

in_filter_lem : (id : ℕ) (l : List ℕ) → (in_filter id l ≡ true) ↔ Occurs id l
unfolding in_filter
in_filter_lem id [] = (λ h. absurd (ground arith), λ h. absurd h)
in_filter_lem id (x ∷ l) = (
  λ h. elim (Bool-cases (x == id)) [
    | inl same ↦ inl ((nat_beq_iff x id).0 same)
    | inr other ↦ inr ((in_filter_lem id l).0 (ground (arith, h, other)))
  ],
  λ h. elim h [
    | inl same ↦ ground (arith, nat_beq_iff x id, same)
    | inr later ↦ ground (arith, (in_filter_lem id l).1 later)
  ],
)

pub changes_lem : (x : Action) → (is_lob_mutating_action x ≡ true) ↔ ChangesBooks x
unfolding is_lob_mutating_action action_beq
changes_lem Action.add = (λ h. tt, λ h. refl)
changes_lem Action.modify = (λ h. tt, λ h. refl)
changes_lem Action.cancel = (λ h. tt, λ h. refl)
changes_lem Action.clear = (λ h. tt, λ h. refl)
changes_lem Action.trade = (λ h. absurd (ground arith), λ h. absurd h)
changes_lem Action.fill = (λ h. absurd (ground arith), λ h. absurd h)
changes_lem Action.none = (λ h. absurd (ground arith), λ h. absurd h)

pub trade_lem : (x : Action) → (is_trade_like_action x ≡ true) ↔ IsTrade x
unfolding is_trade_like_action action_beq
trade_lem Action.trade = (λ h. tt, λ h. refl)
trade_lem Action.fill = (λ h. tt, λ h. refl)
trade_lem Action.add = (λ h. absurd (ground arith), λ h. absurd h)
trade_lem Action.modify = (λ h. absurd (ground arith), λ h. absurd h)
trade_lem Action.cancel = (λ h. absurd (ground arith), λ h. absurd h)
trade_lem Action.clear = (λ h. absurd (ground arith), λ h. absurd h)
trade_lem Action.none = (λ h. absurd (ground arith), λ h. absurd h)

clear_lem : (x : Action) → (action_beq x Action.clear ≡ true) ↔ (x ≡ Action.clear)
unfolding action_beq
clear_lem x = ground arith

pub none_lem : (x : Action) → (action_beq x Action.none ≡ true) ↔ (x ≡ Action.none)
unfolding action_beq
none_lem x = ground arith

pub accepts_lem :
    (e : MarketDataEvent) (a : MarketDataEventAdapter)
    → (accepts e a ≡ true) ↔ GetsThrough e a.instrument_filter
unfolding accepts
accepts_lem e a = by_filter a.instrument_filter refl
  where
    by_filter :
        (l : List ℕ)
        → a.instrument_filter ≡ l
        → (accepts e a ≡ true) ↔ GetsThrough e a.instrument_filter
    by_filter [] found = (λ h. inl found, λ h. rw (found, accepts) refl)
    by_filter (x ∷ l) found = (
      λ h. elim (Bool-cases (in_filter e.instrument_id a.instrument_filter)) [
        | inl here ↦ inr (inl ((in_filter_lem e.instrument_id a.instrument_filter).0 here))
        | inr away ↦ inr (
            inr (
              (clear_lem e.action).0 (ground (arith, h, found, away)),
              ground (arith, h, found, away, nat_beq_iff e.instrument_id 0),
            ))
      ],
      λ h. elim h [
        | inl none_left ↦ rw (none_left, accepts) refl
        | inr (inl here) ↦
            let listed = (in_filter_lem e.instrument_id a.instrument_filter).1 here in
            ground (arith, found, listed)
        | inr (inr (cleared, all)) ↦
            let c = (clear_lem e.action).1 cleared in
            ground (arith, found, c, all, nat_beq_iff e.instrument_id 0)
      ],
    )
