-- ===== src/Runners/Summary/Chronology.antt =====
-- src/runners/HardRunnerSupport.cpp: the summary of the events that a merge dispatches.
use backtester_lab.Base.{
  ℕ, ◌+◌, ◌<◌, ◌≡◌, refl, false, List, [], ◌∷◌, Option, none, some, arith, nat_eq, length, u64_mod,
  All, sum_map, subst, Option-cases, inl, inr, ◌∙◌,
}
use mathlib.Core.List.{foldl}
use backtester_lab.Domain.{MarketDataEvent}
use backtester_lab.Runners.Merge.{EventStream, merge_input_queues}
use backtester_lab.Runners.Merge.Order.{NoneBefore, IsChronological}
use backtester_lab.Runners.Merge.Merged.{IsMerged, merge_input_queues-IsMerged, sum_one, sum_ones}
use backtester_lab.Runners.Merge.Output.{one}
use backtester_lab.Runners.Summary.{
  ProcessingSummary, new_summary, violates, observe, dispatch_merged_queue,
}

-- No event comes before the previous one.
abbrev Follows : Option MarketDataEvent → EventStream → Type 0
Follows none events = Unit
Follows (some e) events = NoneBefore e events

Follows-violates :
    (e : MarketDataEvent) (events : EventStream) (s : ProcessingSummary)
    → Follows s.previous_event (e ∷ events)
    → violates e s ≡ false
unfolding violates
Follows-violates e events s after = elim (Option-cases s.previous_event) [
  | inl first ↦ rw (first, violates) refl
  | inr (previous, found) ↦
      let later : Follows (some previous) (e ∷ events) =
        subst (λ o. Follows o (e ∷ events)) found after in
      rw (found, violates) (later.0)
]

module _ {ℓ} {P : Type ℓ} (process : MarketDataEvent → P → P) where
  dispatch-count :
      (events : EventStream) (processor : P) (s : ProcessingSummary)
      → s.total_messages_processed + length events < u64_mod
      → (dispatch_merged_queue process events processor s).1.total_messages_processed
        ≡ s.total_messages_processed + length events
  unfolding dispatch_merged_queue observe
  dispatch-count [] processor s h = omega arith
  dispatch-count (e ∷ events) processor s h =
      omega (arith, dispatch-count events (process e processor) (observe e s) (omega (arith, h)), h)

  -- The events reach the processor one after the other, each once.
  dispatch-processor :
      (events : EventStream) (processor : P) (s : ProcessingSummary)
      → (dispatch_merged_queue process events processor s).0
        ≡ foldl (λ state event. process event state) processor events
  unfolding dispatch_merged_queue
  dispatch-processor [] processor s = refl
  dispatch-processor (e ∷ events) processor s =
      dispatch-processor events (process e processor) (observe e s)

  -- Events in order, after a previous one that none of them comes before, make no violation.
  dispatch-violations :
      (events : EventStream) (processor : P) (s : ProcessingSummary)
      → IsChronological events
      → Follows s.previous_event events
      → (dispatch_merged_queue process events processor s).1.chronological_violations
        ≡ s.chronological_violations
  unfolding dispatch_merged_queue observe
  dispatch-violations [] processor s sorted after = refl
  dispatch-violations (e ∷ events) processor s sorted after =
      let calm : violates e s ≡ false = Follows-violates e events s after in
      dispatch-violations events (process e processor) (observe e s) sorted.1 sorted.0
      ∙ rw calm refl

  -- A run over inputs that are each in order gives the processor the events of the merge, in order and
  -- each once; these are the events of the inputs, in chronological order, and the summary counts them
  -- all and no chronological violation, with fuel above their number, which stays below 2 ^ 64.
  pub dispatch-IsMerged :
      (fuel : ℕ) (inputs : List EventStream) (processor : P)
      → All IsChronological inputs
      → sum_map length inputs < fuel
      → sum_map length inputs < u64_mod
      → (events : EventStream) × (merge_input_queues fuel inputs ≡ some events)
        × IsMerged inputs events
        × (let run = dispatch_merged_queue process events processor new_summary in
            (run.0 ≡ foldl (λ state event. process event state) processor events)
            × (run.1.total_messages_processed ≡ sum_map length inputs)
            × (run.1.chronological_violations ≡ 0))
  dispatch-IsMerged fuel inputs processor all h small =
      let (events, run, merged) = merge_input_queues-IsMerged fuel inputs all h in
      let total : length events ≡ sum_map length inputs =
        omega (arith, merged.weights one, sum_one events, sum_ones inputs) in
      (
        events,
        run,
        merged,
        (
          dispatch-processor events processor new_summary,
          omega (
            arith,
            dispatch-count events processor new_summary (omega (arith, total, small)),
            total,
          ),
          dispatch-violations events processor new_summary merged.chronological tt,
        ),
      )
