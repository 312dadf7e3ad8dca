-- ===== src/Runners/Hierarchy/Tree.antt =====
-- src/runners/HierarchicalMergeRunner.cpp: the tree's output, and that it is the flat merge's.
use backtester_lab.Base.{
  ℕ, zero, suc, ◌+◌, ◌*◌, ◌<◌, ◌≤◌, ◌≡◌, refl, List, [], ◌∷◌, some, arith, All, sum_map, length,
}
use backtester_lab.Domain.{MarketDataEvent}
use backtester_lab.Runners.Merge.{EventStream}
use backtester_lab.Runners.Merge.Order.{IsChronological}
use backtester_lab.Runners.Merge.Output.{one}
use backtester_lab.Runners.Merge.Merged.{IsMerged, merge_input_queues-IsMerged, sum_ones}
use backtester_lab.Runners.Hierarchy.{next_level, build_merge_tree}

-- What one pass over a level gives.
abbrev IsPassed : ℕ → List EventStream → Type 0
IsPassed fuel inputs =
    (level : List EventStream) × (next_level fuel inputs ≡ some level)
    × All IsChronological level
    × ((w : MarketDataEvent → ℕ) → sum_map (sum_map w) level ≡ sum_map (sum_map w) inputs)
    × (3 * length level ≤ 2 * length inputs + 1)

next_level-IsPassed :
    (fuel : ℕ) (inputs : List EventStream)
    → All IsChronological inputs
    → sum_map length inputs < fuel
    → IsPassed fuel inputs
unfolding next_level
next_level-IsPassed fuel [] all h = ([], refl, tt, (λ w. refl), omega arith)
next_level-IsPassed fuel (a ∷ []) all h = (a ∷ [], refl, all, (λ w. refl), omega arith)
next_level-IsPassed fuel (a ∷ b ∷ []) all h =
    let (output, run, merged) = merge_input_queues-IsMerged fuel (a ∷ b ∷ []) all h in
    (
      output ∷ [],
      rw (run, next_level) refl,
      (merged.chronological, tt),
      (λ w. omega (arith, merged.weights w)),
      omega arith,
    )
next_level-IsPassed fuel (a ∷ b ∷ c ∷ []) all h =
    let (output, run, merged) = merge_input_queues-IsMerged fuel (a ∷ b ∷ c ∷ []) all h in
    (
      output ∷ [],
      rw (run, next_level) refl,
      (merged.chronological, tt),
      (λ w. omega (arith, merged.weights w)),
      omega arith,
    )
next_level-IsPassed fuel (a ∷ b ∷ c ∷ d ∷ inputs) all h =
    let (output, run, merged) =
      merge_input_queues-IsMerged fuel (a ∷ b ∷ c ∷ d ∷ [])
        (all.0, (all.1.0, (all.1.1.0, (all.1.1.1.0, tt)))) (omega (arith, h)) in
    let (level, rest, sorted, sums, small) =
      next_level-IsPassed fuel inputs all.1.1.1.1 (omega (arith, h)) in
    (
      output ∷ level,
      rw (run, rest, next_level) refl,
      (merged.chronological, sorted),
      (λ w. omega (arith, merged.weights w, sums w)),
      omega (arith, small),
    )

-- The tree over inputs that are each in order always ends, with as many levels as there are inputs and
-- fuel above the number of their events: its output is in order and has the events of the inputs,
-- each as often as it stands there.
pub build_merge_tree-IsMerged :
    (levels fuel : ℕ) (inputs : List EventStream)
    → All IsChronological inputs
    → sum_map length inputs < fuel
    → length inputs ≤ levels
    → (events : EventStream) × (build_merge_tree levels fuel inputs ≡ some events)
      × IsMerged inputs events
unfolding build_merge_tree
build_merge_tree-IsMerged levels fuel [] all h deep =
    ([], refl, record { chronological = tt; weights = λ w. refl })
build_merge_tree-IsMerged levels fuel (s ∷ []) all h deep =
    (s, refl, record { chronological = all.0; weights = λ w. omega arith })
build_merge_tree-IsMerged zero fuel (a ∷ b ∷ inputs) all h deep = absurd (omega arith)
build_merge_tree-IsMerged (suc levels) fuel (a ∷ b ∷ inputs) all h deep =
    let (level, run, sorted, sums, small) = next_level-IsPassed fuel (a ∷ b ∷ inputs) all h in
    let (events, tree, merged) =
      build_merge_tree-IsMerged levels fuel level sorted
        (omega (arith, h, sums one, sum_ones level, sum_ones (a ∷ b ∷ inputs)))
        (omega (arith, deep, small)) in
    (
      events,
      rw (run, build_merge_tree) tree,
      record {
        chronological = merged.chronological;
        weights = λ w. omega (arith, merged.weights w, sums w);
      },
    )
