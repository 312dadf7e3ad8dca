-- ===== src/Runners/Merge/Merged.antt =====
-- src/runners/HardRunnerSupport.cpp: `mergeInputQueues` as a whole.
use backtester_lab.Base.{
  ℕ, zero, suc, ◌+◌, ◌<◌, ◌≡◌, refl, false, List, [], ◌∷◌, some, arith, inl, inr, All, sum_map,
  Option-cases, subst, length,
}
use backtester_lab.Domain.{MarketDataEvent, event_comes_before}
use backtester_lab.Runners.Merge.{EventStream, pop_at, fill_heap, merge_input_queues}
use backtester_lab.Runners.Merge.Order.{IsChronological}
use backtester_lab.Runners.Merge.Steps.{Covers}
use backtester_lab.Runners.Merge.Loop.{Ready}
use backtester_lab.Runners.Merge.Output.{left_weight, one, merge_loop-LoopOutput}

fill_heap-weight :
    (w : MarketDataEvent → ℕ) (k : ℕ) (inputs : List EventStream)
    → left_weight w (fill_heap k inputs).0 (fill_heap k inputs).1 ≡ sum_map (sum_map w) inputs
unfolding fill_heap
fill_heap-weight w k [] = refl
fill_heap-weight w k ([] ∷ inputs) = omega (arith, fill_heap-weight w (k + 1) inputs)
fill_heap-weight w k ((e ∷ es) ∷ inputs) = omega (arith, fill_heap-weight w (k + 1) inputs)

fill_heap-IsChronological :
    (k : ℕ) (inputs : List EventStream)
    → All IsChronological inputs
    → All IsChronological (fill_heap k inputs).1
unfolding fill_heap
fill_heap-IsChronological k [] all = tt
fill_heap-IsChronological k ([] ∷ inputs) all = (tt, fill_heap-IsChronological (k + 1) inputs all.1)
fill_heap-IsChronological k ((e ∷ es) ∷ inputs) all =
    (all.0.1, fill_heap-IsChronological (k + 1) inputs all.1)

fill_heap-Covers :
    (k : ℕ) (inputs : List EventStream)
    → All IsChronological inputs
    → (i : ℕ) (y : MarketDataEvent) (r : List EventStream)
    → pop_at i (fill_heap k inputs).1 ≡ some (y, r)
    → Covers (k + i) y (fill_heap k inputs).0
unfolding fill_heap pop_at
fill_heap-Covers k [] all i y r h = absurd (ground arith)
fill_heap-Covers k ([] ∷ inputs) all zero y r h = absurd (ground arith)
fill_heap-Covers k ([] ∷ inputs) all (suc i) y r h =
    elim (Option-cases (pop_at i (fill_heap (k + 1) inputs).1)) [
      | inl none_left ↦ absurd (ground (arith, none_left))
      | inr ((z, left), found) ↦
          let same : z ≡ y = ground (arith, found) in
          let index : k + 1 + i ≡ k + suc i = omega arith in
          subst (λ j. Covers j y (fill_heap (k + 1) inputs).0) index
            (subst (λ x. Covers (k + 1 + i) x (fill_heap (k + 1) inputs).0) same
              (fill_heap-Covers (k + 1) inputs all.1 i z left found))
    ]
fill_heap-Covers k ((e ∷ []) ∷ inputs) all zero y r h = absurd (ground arith)
fill_heap-Covers k ((e ∷ x ∷ es) ∷ inputs) all zero y r h =
    let same : x ≡ y = ground arith in
    inl (omega arith, subst (λ z. event_comes_before z e ≡ false) same all.0.0.0)
fill_heap-Covers k ((e ∷ es) ∷ inputs) all (suc i) y r h =
    elim (Option-cases (pop_at i (fill_heap (k + 1) inputs).1)) [
      | inl none_left ↦ absurd (ground (arith, none_left))
      | inr ((z, left), found) ↦
          let same : z ≡ y = ground (arith, found) in
          let index : k + 1 + i ≡ k + suc i = omega arith in
          inr (
            subst (λ j. Covers j y (fill_heap (k + 1) inputs).0) index
              (subst (λ x. Covers (k + 1 + i) x (fill_heap (k + 1) inputs).0) same
                (fill_heap-Covers (k + 1) inputs all.1 i z left found)))
    ]

-- The output of a merge: in order, and with the events of the inputs, each as often as it stands there,
-- since every weight gives the same sum.
pub record IsMerged (inputs : List EventStream) (events : EventStream) : Type 0 where
  pub chronological : IsChronological events
  pub weights : (w : MarketDataEvent → ℕ) → sum_map w events ≡ sum_map (sum_map w) inputs

pub sum_one : (l : EventStream) → sum_map one l ≡ length l
sum_one [] = refl
sum_one (x ∷ l) = omega (arith, sum_one l)

pub sum_ones : (inputs : List EventStream) → sum_map (sum_map one) inputs ≡ sum_map length inputs
sum_ones [] = refl
sum_ones (s ∷ inputs) = omega (arith, sum_one s, sum_ones inputs)

-- The merge of inputs that are each in order always ends, with fuel above the number of their events:
-- its output is in order and has the events of the inputs, each as often as it stands there.
pub merge_input_queues-IsMerged :
    (fuel : ℕ) (inputs : List EventStream)
    → All IsChronological inputs
    → sum_map length inputs < fuel
    → (events : EventStream) × (merge_input_queues fuel inputs ≡ some events)
      × IsMerged inputs events
unfolding merge_input_queues
merge_input_queues-IsMerged fuel [] all h =
    ([], refl, record { chronological = tt; weights = λ w. refl })
merge_input_queues-IsMerged fuel (s ∷ inputs) all h =
    let heap = (fill_heap 0 (s ∷ inputs)).0 in
    let rest = (fill_heap 0 (s ∷ inputs)).1 in
    let ready : Ready heap rest = λ i y r at.
      let index : 0 + i ≡ i = omega arith in
      subst (λ j. Covers j y heap) index (fill_heap-Covers 0 (s ∷ inputs) all i y r at) in
    let (events, run, sorted, sums, least) =
      merge_loop-LoopOutput fuel heap rest ready (fill_heap-IsChronological 0 (s ∷ inputs) all)
        (omega (arith, h, fill_heap-weight one 0 (s ∷ inputs), sum_ones (s ∷ inputs))) in
    (
      events,
      run,
      record {
        chronological = sorted;
        weights = λ w. omega (arith, sums w, fill_heap-weight w 0 (s ∷ inputs));
      },
    )
