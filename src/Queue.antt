-- ===== src/Queue.antt =====
-- src/concurrency/NonBlockingQueue.hpp: a queue between one producer and one consumer that hands
-- over whole batches. The linked nodes behind `head_` are a list of batches, oldest first; a call is
-- one step, since the two ends share only the link that `flush` publishes.
pub mod Fifo
pub mod Drain
mod Tests
use backtester_lab.Base.{
  ℕ, zero, suc, ◌+◌, ◌-◌, Bool, true, false, List, [], ◌∷◌, ◌++◌, Option, none, some, if◌then◌else◌,
  leb, ◌==◌, nat_eq, u64, length, get_elem?,
}

pub record NonBlockingQueue {ℓ} (A : Type ℓ) : Type ℓ where
  pub batch_size : ℕ
  pub nodes : List (List A)
  pub producer_batch : List A
  pub consumer_batch : List A
  pub consumer_index : ℕ
  pub enqueued_count : ℕ
  pub dequeued_count : ℕ

-- What a call to take an element gives. `out_of_range` is an access behind the end of a vector.
pub data Pop {ℓ} (A : Type ℓ) : Type ℓ where
  empty : Pop A
  out_of_range : Pop A
  item : A → Pop A

module _ {ℓ} {A : Type ℓ} where
  -- The constructor; `none` is the exception for batch size 0.
  unfoldable pub new_queue : ℕ → Option (NonBlockingQueue A)
  new_queue batch_size =
      if batch_size == 0
      then none
      else some (record {
        batch_size = batch_size;
        nodes = [];
        producer_batch = [];
        consumer_batch = [];
        consumer_index = 0;
        enqueued_count = 0;
        dequeued_count = 0;
      })

  unfoldable pub flush_batch : List A → NonBlockingQueue A → NonBlockingQueue A
  flush_batch [] q = q
  flush_batch (x ∷ batch) q = record q {
    nodes = q.nodes ++ ((x ∷ batch) ∷ []);
    producer_batch = [];
  }

  unfoldable pub flush : NonBlockingQueue A → NonBlockingQueue A
  unfolding flush_batch
  flush q = flush_batch q.producer_batch q

  unfoldable pub push : A → NonBlockingQueue A → NonBlockingQueue A
  push value q =
      let q' = record q {
        producer_batch = q.producer_batch ++ (value ∷ []);
        enqueued_count = u64 (q.enqueued_count + 1);
      } in
      if leb q'.batch_size (length q'.producer_batch) then flush q' else q'

  -- The first linked batch becomes the consumer's.
  unfoldable pub acquire_from : List (List A) → NonBlockingQueue A → Bool × NonBlockingQueue A
  acquire_from [] q = (false, record q { consumer_batch = []; consumer_index = 0 })
  acquire_from (batch ∷ nodes) q =
      (true, record q { nodes = nodes; consumer_batch = batch; consumer_index = 0 })

  unfoldable pub try_acquire_consumer_batch : NonBlockingQueue A → Bool × NonBlockingQueue A
  unfolding acquire_from
  try_acquire_consumer_batch q = acquire_from q.nodes q

  -- `consumer_batch_[consumer_index_++]`, and the count.
  unfoldable pub take_item : NonBlockingQueue A → Pop A × NonBlockingQueue A
  take_item q = elim (get_elem? q.consumer_batch q.consumer_index) [
    | none ↦ (out_of_range, q)
    | some value ↦ (
      item value,
      record q {
        consumer_index = q.consumer_index + 1;
        dequeued_count = u64 (q.dequeued_count + 1);
      },
    )
  ]

  unfoldable pub try_pop : NonBlockingQueue A → Pop A × NonBlockingQueue A
  unfolding take_item try_acquire_consumer_batch
  try_pop q =
      if leb (length q.consumer_batch) q.consumer_index
      then (let acquired = try_acquire_consumer_batch q in
          if acquired.0 then take_item acquired.1 else (empty, acquired.1))
      else take_item q

  -- `size`: an estimate from the two counters.
  unfoldable pub size : NonBlockingQueue A → ℕ
  size q = if leb q.dequeued_count q.enqueued_count then q.enqueued_count - q.dequeued_count else 0

  -- `while (std::optional<T> x = tryPop())`, with the elements in the order in which they come.
  -- `none` means that the fuel ran out.
  unfoldable pub drain : ℕ → NonBlockingQueue A → Option (List A × NonBlockingQueue A)
  unfolding try_pop
  drain zero q = none
  drain (suc fuel) q =
      let rest = drain fuel (try_pop q).1 in
      elim (try_pop q).0 [
        | empty ↦ some ([], (try_pop q).1)
        | out_of_range ↦ none
        | item value ↦ elim rest [ none ↦ none | some r ↦ some (value ∷ r.0, r.1) ]
      ]
