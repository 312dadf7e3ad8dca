-- ===== src/Runners/Hierarchy.antt =====
-- src/runners/HierarchicalMergeRunner.cpp: `buildMergeTree`. Each merger thread reads its group's
-- queues and writes one queue, so the streams of a level determine those of the next.
pub mod Tree
use backtester_lab.Base.{ℕ, zero, suc, List, [], ◌∷◌, Option, none, some}
use backtester_lab.Runners.Merge.{EventStream, merge_input_queues}

-- The `for` loop over groups of `merge_fan_in`, which is 4: a last group of one passes as it is.
unfoldable pub next_level : ℕ → List EventStream → Option (List EventStream)
next_level fuel [] = some []
next_level fuel (a ∷ []) = some (a ∷ [])
next_level fuel (a ∷ b ∷ []) = elim (merge_input_queues fuel (a ∷ b ∷ [])) [
  | none ↦ none
  | some output ↦ some (output ∷ [])
]
next_level fuel (a ∷ b ∷ c ∷ []) = elim (merge_input_queues fuel (a ∷ b ∷ c ∷ [])) [
  | none ↦ none
  | some output ↦ some (output ∷ [])
]
next_level fuel (a ∷ b ∷ c ∷ d ∷ inputs) =
    let rest = next_level fuel inputs in
    elim (merge_input_queues fuel (a ∷ b ∷ c ∷ d ∷ [])) [
      | none ↦ none
      | some output ↦ elim rest [ none ↦ none | some level ↦ some (output ∷ level) ]
    ]

-- The events of the final queue. `levels` is the fuel of the `while` loop, and `fuel` that of each
-- merge.
unfoldable pub build_merge_tree : ℕ → ℕ → List EventStream → Option EventStream
unfolding next_level
build_merge_tree levels fuel [] = some []
build_merge_tree levels fuel (s ∷ []) = some s
build_merge_tree zero fuel (a ∷ b ∷ inputs) = none
build_merge_tree (suc levels) fuel (a ∷ b ∷ inputs) = elim (next_level fuel (a ∷ b ∷ inputs)) [
  | none ↦ none
  | some level ↦ build_merge_tree levels fuel level
]
