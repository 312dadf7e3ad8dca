-- ===== src/Queue/Fifo.antt =====
-- The queue as a list: `contents` is what was pushed and not yet taken, oldest first, and
-- `available` the part of it that the consumer can see.
use mathlib.Core.List.{append_assoc, append-nil}
use backtester_lab.Base.{
  ◌+◌, ◌<◌, ◌≡◌, refl, sym, ap, ◌∙◌, List, [], ◌∷◌, ◌++◌, arith, if◌then◌else◌, leb, length, drop,
  drop_step, drop_of_length-le, u64, All, ◌⊎◌, inl, inr, Bool-cases,
}
use backtester_lab.Queue.{
  NonBlockingQueue, Pop, empty, item, flush_batch, flush, push, acquire_from, take_item, try_pop,
}

module _ {ℓ} {A : Type ℓ} where
  abbrev pub flatten : List (List A) → List A
  flatten [] = []
  flatten (b ∷ bs) = b ++ flatten bs

  flatten-append : (bs cs : List (List A)) → flatten (bs ++ cs) ≡ flatten bs ++ flatten cs
  flatten-append [] cs = refl
  flatten-append (b ∷ bs) cs = simp (flatten-append bs cs, append_assoc)

  unfoldable pub available : NonBlockingQueue A → List A
  available q = drop q.consumer_index q.consumer_batch ++ flatten q.nodes

  unfoldable pub contents : NonBlockingQueue A → List A
  contents q = available q ++ q.producer_batch

  -- The state between calls: no linked batch is empty, and the producer's batch is not full.
  pub record IsQueue (q : NonBlockingQueue A) : Type ℓ where
    pub partial : length q.producer_batch < q.batch_size
    pub filled : All (λ b. 0 < length b) q.nodes

  available-flush_batch :
      (batch : List A) (q : NonBlockingQueue A)
      → available (flush_batch batch q) ≡ available q ++ batch
  unfolding available flush_batch
  available-flush_batch [] q = sym (append-nil _)
  available-flush_batch (x ∷ batch) q = simp (flatten-append, append_assoc, append-nil)

  producer-flush_batch :
      (batch : List A) (q : NonBlockingQueue A)
      → q.producer_batch ≡ batch
      → (flush_batch batch q).producer_batch ≡ []
  unfolding flush_batch
  producer-flush_batch [] q e = e
  producer-flush_batch (x ∷ batch) q e = refl

  -- Publishing moves the producer's batch into the consumer's sight, and reorders nothing.
  pub available-flush : (q : NonBlockingQueue A) → available (flush q) ≡ contents q
  unfolding flush contents
  available-flush q = available-flush_batch q.producer_batch q

  producer-flush : (q : NonBlockingQueue A) → (flush q).producer_batch ≡ []
  unfolding flush
  producer-flush q = producer-flush_batch q.producer_batch q refl

  pub contents-flush : (q : NonBlockingQueue A) → contents (flush q) ≡ contents q
  contents-flush q =
      unfold contents in
      ap (λ b. available (flush q) ++ b) (producer-flush q)
      ∙ append-nil (available (flush q))
      ∙ available-flush q

  -- A pushed element goes to the end, whether or not the push publishes the batch.
  pub contents-push :
      (v : A) (q : NonBlockingQueue A) → contents (push v q) ≡ contents q ++ (v ∷ [])
  unfolding push
  contents-push v q = elim (Bool-cases (leb q.batch_size (length (q.producer_batch ++ (v ∷ []))))) [
    | inl full ↦ rw full (contents-flush _ ∙ extended)
    | inr room ↦ rw room extended
  ]
    where
      extended :
          contents (record q {
            producer_batch = q.producer_batch ++ (v ∷ []);
            enqueued_count = u64 (q.enqueued_count + 1);
          })
          ≡ contents q ++ (v ∷ [])
      extended = unfold contents available in simp append_assoc

  All-snoc :
      (bs : List (List A)) (b : List A)
      → All (λ c. 0 < length c) bs
      → 0 < length b
      → All (λ c. 0 < length c) (bs ++ (b ∷ []))
  All-snoc [] b a h = (h, tt)
  All-snoc (c ∷ bs) b a h = (a.0, All-snoc bs b a.1 h)

  flush_batch-IsQueue :
      (batch : List A) (q : NonBlockingQueue A)
      → q.producer_batch ≡ batch
      → 0 < q.batch_size
      → All (λ c. 0 < length c) q.nodes
      → IsQueue (flush_batch batch q)
  unfolding flush_batch
  flush_batch-IsQueue [] q e h a = record { partial = rw e h; filled = a }
  flush_batch-IsQueue (x ∷ batch) q e h a = record {
    partial = h;
    filled = All-snoc q.nodes (x ∷ batch) a (omega arith);
  }

  filled-flush :
      (q : NonBlockingQueue A)
      → 0 < q.batch_size
      → All (λ c. 0 < length c) q.nodes
      → IsQueue (flush q)
  unfolding flush
  filled-flush q h a = flush_batch-IsQueue q.producer_batch q refl h a

  pub flush-IsQueue : (q : NonBlockingQueue A) → IsQueue q → IsQueue (flush q)
  flush-IsQueue q v = filled-flush q (omega arith) v.filled

  -- A push keeps a queue well-formed: a full batch is published at once, so the producer's batch
  -- stays partial and no published batch is empty.
  pub push-IsQueue : (v : A) (q : NonBlockingQueue A) → IsQueue q → IsQueue (push v q)
  unfolding push
  push-IsQueue v q h =
      let positive : 0 < q.batch_size = omega arith in
      elim (Bool-cases (leb q.batch_size (length (q.producer_batch ++ (v ∷ []))))) [
        | inl full ↦ rw full (filled-flush _ positive h.filled)
        | inr room ↦ rw room (record { partial = ground arith; filled = h.filled })
      ]

  -- What a call of `tryPop` did: there was nothing to see, or the oldest visible element came off.
  abbrev pub Popped : NonBlockingQueue A → Pop A × NonBlockingQueue A → Type ℓ
  Popped q r =
      ((available q ≡ []) × (r.0 ≡ empty) × (available r.1 ≡ []))
      ⊎ ((a : A) × (available q ≡ a ∷ available r.1) × (r.0 ≡ item a))

  take_item-Popped :
      (q : NonBlockingQueue A) → q.consumer_index < length q.consumer_batch → Popped q (take_item q)
  take_item-Popped q h =
      let (a, at, rest) = drop_step q.consumer_index q.consumer_batch h in
      inr (
        a,
        unfold available take_item in rw (at, take_item, rest) refl,
        unfold take_item in rw (at, take_item) refl,
      )

  Popped-same :
      (q q' : NonBlockingQueue A) (r : Pop A × NonBlockingQueue A)
      → available q ≡ available q'
      → Popped q' r
      → Popped q r
  Popped-same q q' r same (inl p) = inl (same ∙ p.0, p.1, p.2)
  Popped-same q q' r same (inr (a, p, e)) = inr (a, same ∙ p, e)

  acquired-Popped :
      (nodes : List (List A)) (q : NonBlockingQueue A)
      → All (λ b. 0 < length b) nodes
      → available q ≡ flatten nodes
      → flatten q.nodes ≡ flatten nodes
      → let acquired = acquire_from nodes q in
        Popped q (if acquired.0 then take_item acquired.1 else (empty, acquired.1))
  unfolding acquire_from
  acquired-Popped [] q a e n = inl (e, refl, unfold available in n)
  acquired-Popped (b ∷ nodes) q a e n =
      let q' = record q { nodes = nodes; consumer_batch = b; consumer_index = 0 } in
      Popped-same q q' (take_item q') (e ∙ unfold available in refl) (take_item-Popped q' a.0)

  -- On a well-formed queue `tryPop` takes the oldest visible element, and fails only if none is
  -- visible: it never reads behind the end of a batch.
  pub try_pop-Popped : (q : NonBlockingQueue A) → IsQueue q → Popped q (try_pop q)
  unfolding try_pop
  try_pop-Popped q v = elim (Bool-cases (leb (length q.consumer_batch) q.consumer_index)) [
    | inl used ↦
        let empty_batch : drop q.consumer_index q.consumer_batch ≡ [] =
          drop_of_length-le q.consumer_index q.consumer_batch (ground arith) in
        rw used (
          acquired-Popped q.nodes q v.filled
            (unfold available in ap (λ b. b ++ flatten q.nodes) empty_batch) refl)
    | inr more ↦ rw more (take_item-Popped q (ground arith))
  ]

  try_pop-keeps :
      (q : NonBlockingQueue A)
      → ((try_pop q).1.producer_batch ≡ q.producer_batch)
        × ((try_pop q).1.batch_size ≡ q.batch_size)
        × (All (λ b. 0 < length b) q.nodes → All (λ b. 0 < length b) (try_pop q).1.nodes)
  unfolding try_pop take_item acquire_from
  try_pop-keeps q = (ground arith, ground arith, λ a. ground arith)

  pub try_pop-IsQueue : (q : NonBlockingQueue A) → IsQueue q → IsQueue (try_pop q).1
  try_pop-IsQueue q v =
      let (producer, batch_size, filled) = try_pop-keeps q in
      record { partial = rw (producer, batch_size) v.partial; filled = filled v.filled }

  pub producer-try_pop : (q : NonBlockingQueue A) → (try_pop q).1.producer_batch ≡ q.producer_batch
  producer-try_pop q = (try_pop-keeps q).0
