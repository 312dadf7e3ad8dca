-- ===== src/Runners/Merge/Steps.antt =====
-- src/runners/HardRunnerSupport.cpp: one pop of the heap, and one pop of an input.
use backtester_lab.Base.{
  ℕ, zero, suc, ◌+◌, ◌≡◌, refl, false, List, [], ◌∷◌, some, arith, ◌⊎◌, inl, inr, All, sum_map,
  Bool-cases, Option-cases, subst,
}
use backtester_lab.Domain.{MarketDataEvent, event_comes_before}
use backtester_lab.Runners.Merge.{EventStream, HeapNode, pop_at, pop_heap}
use backtester_lab.Runners.Merge.Order.{not_before_trans, before_asymm, comes_before_irrefl}

-- The node's event does not come before `e`.
abbrev pub NotAhead : MarketDataEvent → HeapNode → Type 0
NotAhead e n = event_comes_before n.event e ≡ false

pub pop_heap-All :
    (Q : HeapNode → Type 0) (n : HeapNode) (ns : List HeapNode)
    → All Q (n ∷ ns)
    → Q (pop_heap n ns).0 × All Q (pop_heap n ns).1
unfolding pop_heap
pop_heap-All Q n [] all = all
pop_heap-All Q n (k ∷ ks) all =
    let (first, rest) = pop_heap-All Q k ks all.1 in
    elim (Bool-cases (event_comes_before (pop_heap k ks).0.event n.event)) [
      | inl ahead ↦ rw ahead (first, (all.0, rest))
      | inr behind ↦ rw behind all
    ]

pub pop_heap-sum :
    (w : HeapNode → ℕ) (n : HeapNode) (ns : List HeapNode)
    → w (pop_heap n ns).0 + sum_map w (pop_heap n ns).1 ≡ w n + sum_map w ns
unfolding pop_heap
pop_heap-sum w n [] = refl
pop_heap-sum w n (k ∷ ks) = ground (arith, pop_heap-sum w k ks)

NotAhead-trans :
    (a b : MarketDataEvent) (ns : List HeapNode)
    → All (NotAhead b) ns
    → event_comes_before b a ≡ false
    → All (NotAhead a) ns
NotAhead-trans a b [] all h = tt
NotAhead-trans a b (n ∷ ns) all h =
    (not_before_trans a b n.event h all.0, NotAhead-trans a b ns all.1 h)

-- No node of the heap comes before the one that is taken.
pub pop_heap-least :
    (n : HeapNode) (ns : List HeapNode) → All (NotAhead (pop_heap n ns).0.event) (n ∷ ns)
unfolding pop_heap
pop_heap-least n [] = (comes_before_irrefl n.event, tt)
pop_heap-least n (k ∷ ks) =
    let least : All (NotAhead (pop_heap k ks).0.event) (k ∷ ks) = pop_heap-least k ks in
    elim (Bool-cases (event_comes_before (pop_heap k ks).0.event n.event)) [
      | inl ahead ↦
          let top : (pop_heap k ks).0 ≡ (pop_heap n (k ∷ ks)).0 = rw ahead refl in
          subst (λ t. All (NotAhead t.event) (n ∷ k ∷ ks)) top
            (before_asymm (pop_heap k ks).0.event n.event ahead, least)
      | inr behind ↦
          let top : n ≡ (pop_heap n (k ∷ ks)).0 = rw behind refl in
          subst (λ t. All (NotAhead t.event) (n ∷ k ∷ ks)) top
            (
              comes_before_irrefl n.event,
              NotAhead-trans n.event (pop_heap k ks).0.event (k ∷ ks) least behind,
            )
    ]

-- A node of input `i` whose event `y` does not come before.
abbrev pub Covers : ℕ → MarketDataEvent → List HeapNode → Type 0
Covers i y [] = ⊥
Covers i y (n ∷ ns) = ((n.input_index ≡ i) × (event_comes_before y n.event ≡ false)) ⊎ Covers i y ns

pub pop_heap-Covers :
    (i : ℕ) (y : MarketDataEvent) (n : HeapNode) (ns : List HeapNode)
    → Covers i y (n ∷ ns)
    → Covers i y ((pop_heap n ns).0 ∷ (pop_heap n ns).1)
unfolding pop_heap
pop_heap-Covers i y n [] c = c
pop_heap-Covers i y n (k ∷ ks) c =
    elim (Bool-cases (event_comes_before (pop_heap k ks).0.event n.event)) [
      | inr behind ↦ rw behind c
      | inl ahead ↦ rw ahead (elim c [
        | inl this ↦ inr (inl this)
        | inr later ↦ elim (pop_heap-Covers i y k ks later) [
          | inl first ↦ inl first
          | inr rest ↦ inr (inr rest)
        ]
      ])
    ]

pub pop_at-sum :
    (w : MarketDataEvent → ℕ) (i : ℕ) (inputs rest : List EventStream) (e : MarketDataEvent)
    → pop_at i inputs ≡ some (e, rest)
    → w e + sum_map (sum_map w) rest ≡ sum_map (sum_map w) inputs
unfolding pop_at
pop_at-sum w i [] rest e h = absurd (ground arith)
pop_at-sum w zero ([] ∷ inputs) rest e h = absurd (ground arith)
pop_at-sum w zero ((x ∷ xs) ∷ inputs) rest e h = ground arith
pop_at-sum w (suc i) (s ∷ inputs) rest e h = elim (Option-cases (pop_at i inputs)) [
  | inl none_left ↦ absurd (ground (arith, none_left))
  | inr ((x, left), found) ↦ ground (arith, found, pop_at-sum w i inputs left x found)
]

pub pop_at-All :
    (Q : MarketDataEvent → Type 0) (i : ℕ) (inputs rest : List EventStream) (e : MarketDataEvent)
    → pop_at i inputs ≡ some (e, rest)
    → All (All Q) inputs
    → Q e × All (All Q) rest
unfolding pop_at
pop_at-All Q i [] rest e h all = absurd (ground arith)
pop_at-All Q zero ([] ∷ inputs) rest e h all = absurd (ground arith)
pop_at-All Q zero ((x ∷ xs) ∷ inputs) rest e h all =
    let same : x ≡ e = ground arith in
    let left : xs ∷ inputs ≡ rest = ground arith in
    (subst Q same all.0.0, subst (λ r. All (All Q) r) left (all.0.1, all.1))
pop_at-All Q (suc i) (s ∷ inputs) rest e h all = elim (Option-cases (pop_at i inputs)) [
  | inl none_left ↦ absurd (ground (arith, none_left))
  | inr ((x, left), found) ↦
      let same : x ≡ e = ground (arith, found) in
      let kept : s ∷ left ≡ rest = ground (arith, found) in
      let (first, others) = pop_at-All Q i inputs left x found all.1 in
      (subst Q same first, subst (λ r. All (All Q) r) kept (all.0, others))
]
