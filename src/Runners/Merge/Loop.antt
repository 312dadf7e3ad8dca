-- ===== src/Runners/Merge/Loop.antt =====
-- src/runners/HardRunnerSupport.cpp: the heap against the heads of the inputs, in the whole loop.
use backtester_lab.Base.{
  ℕ, zero, suc, ◌≡◌, ◌≢◌, refl, sym, ap, false, List, [], ◌∷◌, some, arith, inl, inr, All,
  Option-cases, subst, nat_eq,
}
use backtester_lab.Domain.{MarketDataEvent, event_comes_before}
use backtester_lab.Runners.Merge.{EventStream, HeapNode, pop_at}
use backtester_lab.Runners.Merge.Order.{NoneBefore, IsChronological, not_before_trans}
use backtester_lab.Runners.Merge.Steps.{NotAhead, Covers}

-- The input is in order, and what follows a popped event does not come before it.
pub pop_at-IsChronological :
    (i : ℕ) (inputs rest : List EventStream) (e : MarketDataEvent)
    → pop_at i inputs ≡ some (e, rest)
    → All IsChronological inputs
    → All IsChronological rest
      × ((y : MarketDataEvent) (r : List EventStream)
          → pop_at i rest ≡ some (y, r)
          → event_comes_before y e ≡ false)
unfolding pop_at
pop_at-IsChronological i [] rest e h all = absurd (ground arith)
pop_at-IsChronological zero ([] ∷ inputs) rest e h all = absurd (ground arith)
pop_at-IsChronological zero ((x ∷ []) ∷ inputs) rest e h all =
    let left : [] ∷ inputs ≡ rest = ground arith in
    (
      subst (λ r. All IsChronological r) left (tt, all.1),
      λ y r next. absurd (ground (arith, next, left)),
    )
pop_at-IsChronological zero ((x ∷ z ∷ xs) ∷ inputs) rest e h all =
    let left : (z ∷ xs) ∷ inputs ≡ rest = ground arith in
    (
      subst (λ r. All IsChronological r) left (all.0.1, all.1),
      λ y r next. ground (arith, next, left, all.0.0.0),
    )
pop_at-IsChronological (suc i) (s ∷ inputs) rest e h all = elim (Option-cases (pop_at i inputs)) [
  | inl none_left ↦ absurd (ground (arith, none_left))
  | inr ((x, left), found) ↦
      let same : x ≡ e = ground (arith, found) in
      let kept : s ∷ left ≡ rest = ground (arith, found) in
      let (others, later) = pop_at-IsChronological i inputs left x found all.1 in
      (
        subst (λ r. All IsChronological r) kept (all.0, others),
        λ y r next. elim (Option-cases (pop_at i left)) [
          | inl no_more ↦ absurd (ground (arith, next, kept, no_more))
          | inr ((z, more), seen) ↦ ground (arith, next, kept, seen, same, later z more seen)
        ],
      )
]

-- A pop leaves the heads of the other inputs.
pub pop_at-other :
    (i j : ℕ) (inputs rest : List EventStream) (e : MarketDataEvent)
    → pop_at i inputs ≡ some (e, rest)
    → i ≢ j
    → (y : MarketDataEvent) (r : List EventStream) → pop_at j rest ≡ some (y, r)
    → (r' : List EventStream) × (pop_at j inputs ≡ some (y, r'))
unfolding pop_at
pop_at-other i j [] rest e h ne y r next = absurd (ground arith)
pop_at-other zero zero (s ∷ inputs) rest e h ne y r next = absurd (ne refl)
pop_at-other zero (suc j) ([] ∷ inputs) rest e h ne y r next = absurd (ground arith)
pop_at-other zero (suc j) ((x ∷ xs) ∷ inputs) rest e h ne y r next =
    let left : xs ∷ inputs ≡ rest = ground arith in
    elim (Option-cases (pop_at j inputs)) [
      | inl no_more ↦ absurd (ground (arith, next, left, no_more))
      | inr ((z, more), seen) ↦ ((x ∷ xs) ∷ more, ground (arith, next, left, seen))
    ]
pop_at-other (suc i) zero (s ∷ inputs) rest e h ne y r next =
    elim (Option-cases (pop_at i inputs)) [
      | inl none_left ↦ absurd (ground (arith, none_left))
      | inr ((x, left), found) ↦
          let kept : s ∷ left ≡ rest = ground (arith, found) in
          head s left (subst (λ q. pop_at zero q ≡ some (y, r)) (sym kept) next)
    ]
  where
    head :
        (s : EventStream) (left : List EventStream)
        → pop_at zero (s ∷ left) ≡ some (y, r)
        → (r' : List EventStream) × (pop_at zero (s ∷ inputs) ≡ some (y, r'))
    head [] left h = unfold pop_at in absurd (ground arith)
    head (z ∷ zs) left h = (zs ∷ inputs, unfold pop_at in ground arith)
pop_at-other (suc i) (suc j) (s ∷ inputs) rest e h ne y r next =
    elim (Option-cases (pop_at i inputs)) [
      | inl none_left ↦ absurd (ground (arith, none_left))
      | inr ((x, left), found) ↦
          let kept : s ∷ left ≡ rest = ground (arith, found) in
          elim (Option-cases (pop_at j left)) [
            | inl no_more ↦ absurd (ground (arith, next, kept, no_more))
            | inr ((z, more), seen) ↦
                let same : z ≡ y = ground (arith, next, kept, seen) in
                let (r', at) =
                  pop_at-other i j inputs left x found (λ q. ne (ap suc q)) z more seen in
                (s ∷ r', ground (arith, at, same))
          ]
    ]

-- The event at the head of each input is covered by the heap.
abbrev pub Ready : List HeapNode → List EventStream → Type 0
Ready heap inputs =
    (i : ℕ) (y : MarketDataEvent) (r : List EventStream)
    → pop_at i inputs ≡ some (y, r)
    → Covers i y heap

pub Covers-NotAhead :
    (i : ℕ) (y e : MarketDataEvent) (heap : List HeapNode)
    → Covers i y heap
    → All (NotAhead e) heap
    → event_comes_before y e ≡ false
Covers-NotAhead i y e (n ∷ ns) (inl (index, covered)) all =
    not_before_trans e n.event y all.0 covered
Covers-NotAhead i y e (n ∷ ns) (inr later) all = Covers-NotAhead i y e ns later all.1
Covers-NotAhead i y e [] c all = absurd c

NoneBefore-trans :
    (a b : MarketDataEvent) (l : List MarketDataEvent)
    → NoneBefore b l
    → event_comes_before b a ≡ false
    → NoneBefore a l
NoneBefore-trans a b [] all h = tt
NoneBefore-trans a b (x ∷ l) all h =
    (not_before_trans a b x h all.0, NoneBefore-trans a b l all.1 h)

-- What does not come before at the heads does not come before at all.
pub heads-NoneBefore :
    (e : MarketDataEvent) (inputs : List EventStream)
    → ((i : ℕ) (y : MarketDataEvent) (r : List EventStream)
        → pop_at i inputs ≡ some (y, r)
        → event_comes_before y e ≡ false)
    → All IsChronological inputs
    → All (NoneBefore e) inputs
unfolding pop_at
heads-NoneBefore e [] heads all = tt
heads-NoneBefore e ([] ∷ inputs) heads all = (
  tt,
  heads-NoneBefore e inputs (λ i y r h. heads (suc i) y ([] ∷ r) (rw (h, pop_at) refl)) all.1,
)
heads-NoneBefore e ((x ∷ xs) ∷ inputs) heads all =
    let first : event_comes_before x e ≡ false = heads zero x (xs ∷ inputs) refl in
    (
      (first, NoneBefore-trans e x xs all.0.0 first),
      heads-NoneBefore e inputs (λ i y r h. heads (suc i) y ((x ∷ xs) ∷ r) (rw (h, pop_at) refl))
          all.1,
    )
