-- ===== src/Runners/Merge/Output.antt =====
-- src/runners/HardRunnerSupport.cpp: the output of the merge.
use backtester_lab.Base.{
  ℕ, zero, suc, ◌+◌, ◌<◌, ◌≡◌, ◌≢◌, refl, sym, ap, false, List, [], ◌∷◌, none, some, arith, inl,
  inr, All, sum_map, Bool-cases, Option-cases, subst, ◌==◌, nat_eq, nat_beq_iff,
}
use backtester_lab.Domain.{MarketDataEvent, event_comes_before}
use backtester_lab.Runners.Merge.{EventStream, HeapNode, pop_at, pop_heap, merge_loop}
use backtester_lab.Runners.Merge.Order.{NoneBefore, IsChronological}
use backtester_lab.Runners.Merge.Steps.{
  NotAhead, pop_heap-All, pop_heap-sum, pop_heap-least, pop_heap-Covers, pop_at-sum, pop_at-All,
}
use backtester_lab.Runners.Merge.Loop.{
  Ready, pop_at-IsChronological, pop_at-other, Covers-NotAhead, heads-NoneBefore,
}

-- A weight of a node's event.
abbrev pub of_event : (MarketDataEvent → ℕ) → HeapNode → ℕ
of_event w n = w n.event

-- What a weight gives for the events that are not in the output yet.
abbrev pub left_weight : (MarketDataEvent → ℕ) → List HeapNode → List EventStream → ℕ
left_weight w heap inputs = sum_map (of_event w) heap + sum_map (sum_map w) inputs

abbrev pub one : MarketDataEvent → ℕ
one e = 1

-- The loop's output: in order, with the events of the heap and the inputs, and without an event that
-- comes before one that nothing there comes before.
abbrev pub LoopOutput : ℕ → List HeapNode → List EventStream → Type 0
LoopOutput fuel heap inputs =
    (events : EventStream) × (merge_loop fuel heap inputs ≡ some events)
    × IsChronological events
    × ((w : MarketDataEvent → ℕ) → sum_map w events ≡ left_weight w heap inputs)
    × ((e : MarketDataEvent)
        → All (NotAhead e) heap
        → All (NoneBefore e) inputs
        → NoneBefore e events)

-- The node of the event that replaces the one of a taken node.
abbrev replacement : HeapNode → MarketDataEvent → HeapNode
replacement n e = record { event = e; input_index = n.input_index }

module _ (n : HeapNode) (ns : List HeapNode) (inputs : List EventStream)
    (ready : Ready (n ∷ ns) inputs) (all : All IsChronological inputs) where
  abbrev next : HeapNode
  next = (pop_heap n ns).0

  abbrev heap : List HeapNode
  heap = (pop_heap n ns).1

  -- The taken input has ended.
  ended-Ready : pop_at next.input_index inputs ≡ none → Ready heap inputs
  ended-Ready none_left i y r h = elim (pop_heap-Covers i y n ns (ready i y r h)) [
    | inl (index, covered) ↦
        absurd (ground (arith, h, none_left, index, ap (λ k. pop_at k inputs) index))
    | inr later ↦ later
  ]

  replaced-Ready :
      (e : MarketDataEvent) (rest : List EventStream)
      → pop_at next.input_index inputs ≡ some (e, rest)
      → Ready (replacement next e ∷ heap) rest
  replaced-Ready e rest taken i y r h = elim (Bool-cases (next.input_index == i)) [
    | inl same ↦
        let index : next.input_index ≡ i = (nat_beq_iff next.input_index i).0 same in
        inl (
          index,
          (pop_at-IsChronological next.input_index inputs rest e taken all).1 y r
              (subst (λ k. pop_at k rest ≡ some (y, r)) (sym index) h),
        )
    | inr other ↦
        let differs : next.input_index ≢ i =
          λ q. ground (arith, other, nat_beq_iff next.input_index i, q) in
        let (r', at) = pop_at-other next.input_index i inputs rest e taken differs y r h in
        elim (pop_heap-Covers i y n ns (ready i y r' at)) [
          | inl (index, covered) ↦ absurd (differs index)
          | inr later ↦ inr later
        ]
  ]

  -- Nothing in the inputs comes before the taken event.
  inputs-NoneBefore : All (NoneBefore next.event) inputs
  inputs-NoneBefore =
      heads-NoneBefore next.event inputs
        (λ i y r h. Covers-NotAhead i y next.event (n ∷ ns) (ready i y r h) (pop_heap-least n ns))
        all

  heap-NotAhead : All (NotAhead next.event) heap
  heap-NotAhead = (pop_heap-All (NotAhead next.event) n ns (pop_heap-least n ns)).1

-- What is left weighs what it did, without the taken event.
taken-weight :
    (w : MarketDataEvent → ℕ) (n : HeapNode) (ns : List HeapNode) (inputs rest : List EventStream)
    (e : MarketDataEvent)
    → pop_at (pop_heap n ns).0.input_index inputs ≡ some (e, rest)
    → w (pop_heap n ns).0.event
        + left_weight w (replacement (pop_heap n ns).0 e ∷ (pop_heap n ns).1) rest
      ≡ left_weight w (n ∷ ns) inputs
taken-weight w n ns inputs rest e taken = omega (
  arith,
  pop_heap-sum (of_event w) n ns,
  pop_at-sum w (pop_heap n ns).0.input_index inputs rest e taken,
)

-- Inputs without a head are empty.
no_heads :
    (w : MarketDataEvent → ℕ) (inputs : List EventStream)
    → ((i : ℕ) (y : MarketDataEvent) (r : List EventStream) → pop_at i inputs ≡ some (y, r) → ⊥)
    → left_weight w [] inputs ≡ 0
unfolding pop_at
no_heads w [] none_left = refl
no_heads w ([] ∷ inputs) none_left =
    omega (arith, no_heads w inputs (λ i y r h. none_left (suc i) y ([] ∷ r) (rw (h, pop_at) refl)))
no_heads w ((x ∷ xs) ∷ inputs) none_left = absurd (none_left zero x (xs ∷ inputs) refl)

pub merge_loop-LoopOutput :
    (fuel : ℕ) (heap : List HeapNode) (inputs : List EventStream)
    → Ready heap inputs
    → All IsChronological inputs
    → left_weight one heap inputs < fuel
    → LoopOutput fuel heap inputs
unfolding merge_loop
merge_loop-LoopOutput zero heap inputs ready all h = absurd (omega arith)
merge_loop-LoopOutput (suc fuel) [] inputs ready all h =
    ([], refl, tt, (λ w. sym (no_heads w inputs (λ i y r at. ready i y r at))), λ e a b. tt)
merge_loop-LoopOutput (suc fuel) (n ∷ ns) inputs ready all h =
    let next : HeapNode = (pop_heap n ns).0 in
    let heap : List HeapNode = (pop_heap n ns).1 in
    elim (Option-cases (pop_at next.input_index inputs)) [
      | inl ended ↦
          let (events, run, sorted, sums, least) =
            merge_loop-LoopOutput fuel heap inputs (ended-Ready n ns inputs ready all ended) all
              (omega (arith, h, pop_heap-sum (of_event one) n ns)) in
          (
            next.event ∷ events,
            rw (ended, run, merge_loop) refl,
            (
              least next.event (heap-NotAhead n ns inputs ready all)
                  (inputs-NoneBefore n ns inputs ready all),
              sorted,
            ),
            (λ w. omega (arith, sums w, pop_heap-sum (of_event w) n ns)),
            (λ e a b.
                let (first, others) = pop_heap-All (NotAhead e) n ns a in
                (first, least e others b)),
          )
      | inr ((x, rest), taken) ↦
          let (events, run, sorted, sums, least) =
            merge_loop-LoopOutput fuel (replacement next x ∷ heap) rest
              (replaced-Ready n ns inputs ready all x rest taken)
              (pop_at-IsChronological next.input_index inputs rest x taken all).0
              (omega (arith, h, taken-weight one n ns inputs rest x taken)) in
          (
            next.event ∷ events,
            rw (taken, run, merge_loop) refl,
            (
              least next.event
                  (
                    (pop_at-All (λ z. event_comes_before z next.event ≡ false) next.input_index
                        inputs rest x taken (inputs-NoneBefore n ns inputs ready all)).0,
                    heap-NotAhead n ns inputs ready all,
                  )
                  (pop_at-All (λ z. event_comes_before z next.event ≡ false) next.input_index inputs
                    rest x taken (inputs-NoneBefore n ns inputs ready all)).1,
              sorted,
            ),
            (λ w. omega (arith, sums w, taken-weight w n ns inputs rest x taken)),
            (λ e a b.
                let (first, others) = pop_heap-All (NotAhead e) n ns a in
                let (later, kept) =
                  pop_at-All (λ z. event_comes_before z e ≡ false) next.input_index inputs rest x
                    taken b in
                (first, least e (later, others) kept)),
          )
    ]
