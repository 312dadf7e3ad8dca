-- ===== src/Queue/Tests.antt =====
-- Runs of src/concurrency at concrete queues, and the theorems about it at inputs that meet their
-- hypotheses.
use backtester_lab.Base.{ℕ, ◌≡◌, refl, ◌++◌, [], ◌∷◌, some, arith}
use backtester_lab.Queue.{
  NonBlockingQueue, flush_batch, flush, push, acquire_from, try_acquire_consumer_batch, take_item,
  try_pop, drain,
}
use backtester_lab.Queue.Fifo.{available, contents, IsQueue, Popped, contents-push, try_pop-Popped}
use backtester_lab.Queue.Drain.{drain-total}

program : Unit {0}
unfolding flush_batch flush push acquire_from try_acquire_consumer_batch take_item try_pop drain
    available contents
program = tt

-- Batches of 2: 1 and 2 are published, 3 is not.
abbrev start : NonBlockingQueue ℕ
start = record {
  batch_size = 2;
  nodes = [];
  producer_batch = [];
  consumer_batch = [];
  consumer_index = 0;
  enqueued_count = 0;
  dequeued_count = 0;
}

abbrev filled : NonBlockingQueue ℕ
filled = record start { nodes = (1 ∷ 2 ∷ []) ∷ []; producer_batch = 3 ∷ []; enqueued_count = 3 }

filled_test : push 3 (push 2 (push 1 start)) ≡ filled
unfolding program
filled_test = refl

filled-IsQueue : IsQueue filled
filled-IsQueue = record { partial = omega arith; filled = (omega arith, tt) }

contents-push_example : contents (push 4 filled) ≡ contents filled ++ (4 ∷ [])
contents-push_example = contents-push 4 filled

try_pop-Popped_example : Popped filled (try_pop filled)
try_pop-Popped_example = try_pop-Popped filled filled-IsQueue

drain-total_example :
    (q : NonBlockingQueue ℕ) × (drain 3 filled ≡ some (available filled, q))
    × (available q ≡ [])
    × (q.producer_batch ≡ filled.producer_batch)
    × IsQueue q
drain-total_example = drain-total 3 filled filled-IsQueue (unfold available in omega arith)
