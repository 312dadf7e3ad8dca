-- ===== src/Runners/Merge.antt =====
-- src/runners/HardRunnerSupport.cpp: `mergeInputQueues` and `dispatchMergedQueue`. A queue stands for
-- the events that its producer pushes before the end item: a pop waits for the next item, so what
-- the merge takes does not depend on when the producers push.
pub mod Order
pub mod Steps
pub mod Loop
pub mod Output
pub mod Merged
use backtester_lab.Base.{
  ℕ, zero, suc, ◌+◌, Bool, List, [], ◌∷◌, ◌++◌, Option, none, some, if◌then◌else◌,
}
use backtester_lab.Domain.{MarketDataEvent, event_comes_before}

abbrev pub EventStream : Type 0
EventStream = List MarketDataEvent

pub record HeapNode : Type 0 where
  pub event : MarketDataEvent
  pub input_index : ℕ

-- `inputs[i]->pop()`: `none` for the end item.
unfoldable pub pop_at : ℕ → List EventStream → Option (MarketDataEvent × List EventStream)
pop_at i [] = none
pop_at zero ([] ∷ inputs) = none
pop_at zero ((e ∷ es) ∷ inputs) = some (e, es ∷ inputs)
pop_at (suc i) (s ∷ inputs) = elim (pop_at i inputs) [
  | none ↦ none
  | some (e, rest) ↦ some (e, s ∷ rest)
]

-- `heap.top()` and `heap.pop()` of a heap that is not empty: a node that no other comes before, and
-- the others.
unfoldable pub pop_heap : HeapNode → List HeapNode → HeapNode × List HeapNode
pop_heap n [] = (n, [])
pop_heap n (k ∷ ks) =
    let (top, rest) = pop_heap k ks in
    if event_comes_before top.event n.event then (top, n ∷ rest) else (n, k ∷ ks)

-- The first loop, from input `i` on: one node for each input with an event.
unfoldable pub fill_heap : ℕ → List EventStream → List HeapNode × List EventStream
fill_heap i [] = ([], [])
fill_heap i ([] ∷ inputs) = let (heap, rest) = fill_heap (i + 1) inputs in (heap, [] ∷ rest)
fill_heap i ((e ∷ es) ∷ inputs) =
    let (heap, rest) = fill_heap (i + 1) inputs in
    (record { event = e; input_index = i } ∷ heap, es ∷ rest)

-- `while (!heap.empty())`: the events that go to the output. `none` means that the fuel ran out.
unfoldable pub merge_loop : ℕ → List HeapNode → List EventStream → Option EventStream
unfolding pop_at pop_heap
merge_loop zero heap inputs = none
merge_loop (suc fuel) [] inputs = some []
merge_loop (suc fuel) (n ∷ ns) inputs =
    let (next, heap) = pop_heap n ns in
    let after : Option EventStream = elim (pop_at next.input_index inputs) [
      | none ↦ merge_loop fuel heap inputs
      | some (e, rest) ↦
          merge_loop fuel (record { event = e; input_index = next.input_index } ∷ heap) rest
    ] in
    elim after [ none ↦ none | some events ↦ some (next.event ∷ events) ]

-- The events of the output before its end item.
unfoldable pub merge_input_queues : ℕ → List EventStream → Option EventStream
unfolding fill_heap merge_loop
merge_input_queues fuel [] = some []
merge_input_queues fuel (s ∷ inputs) =
    let (heap, rest) = fill_heap 0 (s ∷ inputs) in merge_loop fuel heap rest
