-- ===== src/Queue/Drain.antt =====
-- The loop that takes elements until `tryPop` fails.
use backtester_lab.Base.{ℕ, zero, suc, ◌<◌, ◌≡◌, refl, ap, ◌∙◌, [], some, arith, length, inl, inr}
use backtester_lab.Queue.{NonBlockingQueue, try_pop, drain}
use backtester_lab.Queue.Fifo.{
  available, IsQueue, try_pop-Popped, try_pop-IsQueue, producer-try_pop,
}

module _ {ℓ} {A : Type ℓ} where
  -- With fuel for each visible element and the failing call the loop ends. It has then taken all
  -- visible elements in order, and left the producer's batch as it was. The queue is well-formed.
  pub drain-total :
      (fuel : ℕ) (q : NonBlockingQueue A)
      → IsQueue q
      → length (available q) < fuel
      → (q' : NonBlockingQueue A) × (drain fuel q ≡ some (available q, q'))
        × (available q' ≡ [])
        × (q'.producer_batch ≡ q.producer_batch)
        × IsQueue q'
  unfolding drain
  drain-total zero q v h = absurd (omega arith)
  drain-total (suc fuel) q v h = elim (try_pop-Popped q v) [
    | inl (none_left, failed, none_after) ↦ (
      (try_pop q).1,
      rw (failed, drain, none_left) refl,
      none_after,
      producer-try_pop q,
      try_pop-IsQueue q v,
    )
    | inr (a, first, taken) ↦
        let (q', rest, done, producer, v') =
          drain-total fuel (try_pop q).1 (try_pop-IsQueue q v) (omega (arith, ap length first)) in
        (q', rw (taken, drain, rest, first) refl, done, producer ∙ producer-try_pop q, v')
  ]
