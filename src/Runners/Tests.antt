-- ===== src/Runners/Tests.antt =====
-- The theorems about src/runners at inputs that meet their hypotheses.
use mathlib.Core.List.{foldl}
use backtester_lab.Base.{ℕ, ◌+◌, ◌≡◌, refl, List, [], ◌∷◌, some, map, arith, All}
use backtester_lab.Base.Int.{pos}
use backtester_lab.Domain.{Side, Action, MarketDataEvent, event_comes_before}
use backtester_lab.Runners.Merge.{EventStream, merge_input_queues}
use backtester_lab.Runners.Merge.Order.{IsChronological, key_of}
use backtester_lab.Runners.Merge.Merged.{IsMerged, merge_input_queues-IsMerged}
use backtester_lab.Runners.Hierarchy.{build_merge_tree}
use backtester_lab.Runners.Agreement.{merge_input_queues-eq-build_merge_tree}
use backtester_lab.Runners.Summary.{new_summary, dispatch_merged_queue}
use backtester_lab.Runners.Summary.Chronology.{dispatch-IsMerged}

-- The event of a line of a file, at a time.
abbrev event : ℕ → ℕ → ℕ → MarketDataEvent
event timestamp file line = record {
  timestamp = timestamp;
  ts_recv = timestamp;
  ts_event = timestamp;
  order_id = 1;
  side = Side.bid;
  price = pos 90;
  size = 5;
  action = Action.add;
  instrument_id = 7;
  source_file_id = file;
  source_sequence = line;
  line_number = line;
}

-- Five files; the second and the third have events at the same time.
abbrev inputs : List EventStream
inputs =
    (event 100 0 1 ∷ event 130 0 2 ∷ [])
    ∷ (event 110 1 1 ∷ [])
    ∷ (event 110 2 1 ∷ [])
    ∷ []
    ∷ (event 90 4 1 ∷ [])
    ∷ []

-- The flat merge takes them by time, and then by file.
flat_result :
    merge_input_queues 6 inputs
    ≡ some (event 90 4 1 ∷ event 100 0 1 ∷ event 110 1 1 ∷ event 110 2 1 ∷ event 130 0 2 ∷ [])
unfolding merge_input_queues event_comes_before
flat_result = refl

inputs-IsChronological : All IsChronological inputs
unfolding event_comes_before
inputs-IsChronological = (((refl, tt), (tt, tt)), ((tt, tt), ((tt, tt), (tt, ((tt, tt), tt)))))

merge_input_queues-IsMerged_example :
    (events : EventStream) × (merge_input_queues 6 inputs ≡ some events) × IsMerged inputs events
merge_input_queues-IsMerged_example =
    merge_input_queues-IsMerged 6 inputs inputs-IsChronological (omega arith)

merge_input_queues-eq-build_merge_tree_example :
    (flat : EventStream) × (tree : EventStream) × (merge_input_queues 6 inputs ≡ some flat)
    × (build_merge_tree 5 6 inputs ≡ some tree)
    × (map key_of flat ≡ map key_of tree)
merge_input_queues-eq-build_merge_tree_example =
    merge_input_queues-eq-build_merge_tree 5 6 inputs inputs-IsChronological (omega arith)
      (omega arith)

-- A processor that counts the sizes.
abbrev add_size : MarketDataEvent → ℕ → ℕ
add_size event total = total + event.size

dispatch-IsMerged_example :
    (events : EventStream) × (merge_input_queues 6 inputs ≡ some events)
    × IsMerged inputs events
    × (let run = dispatch_merged_queue add_size events 0 new_summary in
        (run.0 ≡ foldl (λ state event. add_size event state) 0 events)
        × (run.1.total_messages_processed ≡ 5)
        × (run.1.chronological_violations ≡ 0))
dispatch-IsMerged_example =
    dispatch-IsMerged add_size 6 inputs 0 inputs-IsChronological (omega arith) (omega arith)
