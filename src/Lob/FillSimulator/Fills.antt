-- ===== src/Lob/FillSimulator/Fills.antt =====
-- src/lob/FillSimulator.cpp: the fills of a whole call against the liquidity that it takes.
use backtester_lab.Base.{
  ℕ, zero, suc, ◌+◌, ◌<◌, ◌≤◌, ◌≡◌, ◌≢◌, refl, sym, ◌∙◌, ap, subst, min, true, List, [], ◌∷◌, ◌++◌,
  Option, none, some, arith, if◌then◌else◌, ◌==◌, nat_eq, u64_mod, u64, u64-eq_of_lt, Bool-cases,
  ◌⊎◌, inl, inr, ltb, sum_map, sum_map-append, All, All-snoc, ◌||◌,
}
use backtester_lab.Base.Int.{ℤ, int_eq, int_beq_iff}
use backtester_lab.Domain.{Side}
use backtester_lab.Sides.{volume_on, same_level}
use backtester_lab.Sides.Laws.{IsLadders, volume_on-add, add_volume-IsLadders}
use backtester_lab.Lob.Historical.{Historical}
use backtester_lab.Lob.Historical.Valid.{IsHistorical}
use backtester_lab.Lob.EngineView.{EngineView, consumed_liquidity, consume_historical_liquidity}
use backtester_lab.Lob.FillSimulator.{
  SimulatedOrderRequest, SimulatedFill, Filling, make_fill, take_level, fill_step, fill_loop,
}
use backtester_lab.Lob.FillSimulator.Steps.{
  opposite, within_limit, offered, IsStep, stop, take, fill_step-IsStep, consumed-consume,
}

-- What the fills take at one price.
abbrev pub size_at_price : ℤ → SimulatedFill → ℕ
size_at_price p f = if f.price == p then f.size else 0

abbrev pub filled_at : ℤ → List SimulatedFill → ℕ
filled_at p fills = sum_map (size_at_price p) fills

abbrev pub fill_size_of : SimulatedFill → ℕ
fill_size_of f = f.size

-- A fill of the order `id` of the request: of positive size, at a price within the limit.
pub record IsFillOf (r : SimulatedOrderRequest) (id : ℕ) (f : SimulatedFill) : Type 0 where
  pub made : f ≡ make_fill r id f.price f.size
  pub positive : 0 < f.size
  pub within : within_limit r f.price ≡ true

-- What the engine has taken of the side that the request takes from, at a price.
abbrev pub taken : SimulatedOrderRequest → EngineView → ℤ → ℕ
taken r view p = volume_on (opposite r.side) p (consumed_liquidity r.instrument_id view)

-- `view` with what `other` has taken.
abbrev pub with_consumed : EngineView → EngineView → EngineView
with_consumed other view = record view {
  consumed_historical_liquidity = other.consumed_historical_liquidity;
}

consume-with_consumed :
    (i : ℕ) (t : Side) (p : ℤ) (n : ℕ) (view : EngineView)
    → consume_historical_liquidity i t p n view
      ≡ with_consumed (consume_historical_liquidity i t p n view) view
unfolding consume_historical_liquidity
consume-with_consumed i t p n view = elim (Bool-cases ((i == 0) || (n == 0))) [
  | inl nothing ↦ rw nothing refl
  | inr some_size ↦ rw some_size refl
]

-- The loop at any pass, where the call began with `before`: the sizes add up, every fill is good,
-- the view has recorded each fill as taken, and no price has more taken than it offered.
pub record IsFilled (h : Historical) (r : SimulatedOrderRequest) (id : ℕ) (before : EngineView)
    (s : Filling) : Type 0 where
  pub total : s.filled_size + s.remaining ≡ r.size
  pub sums : sum_map fill_size_of s.fills ≡ s.filled_size
  pub each : All (IsFillOf r id) s.fills
  pub ladders : IsLadders (consumed_liquidity r.instrument_id s.view)
  pub recorded : (p : ℤ) → taken r s.view p ≡ taken r before p + filled_at p s.fills
  pub offers : (p : ℤ) → filled_at p s.fills ≤ offered h r before p
  pub kept : s.view ≡ with_consumed s.view before

-- A request that is valid has an instrument, a side and a size.
pub record IsRequest (r : SimulatedOrderRequest) : Type 0 where
  pub known : r.instrument_id ≢ 0
  pub sided : (r.side ≡ Side.bid) ⊎ (r.side ≡ Side.ask)
  pub sized : r.size < u64_mod

same_level-opposite :
    (r : SimulatedOrderRequest) (p q : ℤ)
    → (r.side ≡ Side.bid) ⊎ (r.side ≡ Side.ask)
    → same_level (opposite r.side) p (opposite r.side) q ≡ (p == q)
unfolding same_level
same_level-opposite r p q (inl e) = rw e refl
same_level-opposite r p q (inr e) = rw e refl

filled_at-le : (p : ℤ) (fs : List SimulatedFill) → filled_at p fs ≤ sum_map fill_size_of fs
filled_at-le p [] = omega arith
filled_at-le p (f ∷ fs) = ground (arith, filled_at-le p fs)

module _ (h : Historical) (r : SimulatedOrderRequest) (id : ℕ) (before : EngineView)
    (v : IsRequest r) (room : (p : ℤ) → taken r before p + r.size < u64_mod) where
  taken-take_level :
      (s : Filling) (best : ℤ × ℕ) (p : ℤ)
      → IsFilled h r id before s
      → 0 < s.remaining
      → 0 < best.1
      → offered h r s.view best.0 ≡ best.1
      → (taken r (take_level r id (opposite r.side) best s).view p
          ≡ taken r s.view p + size_at_price p (make_fill r id best.0 (min s.remaining best.1)))
        × IsLadders
            (consumed_liquidity r.instrument_id (take_level r id (opposite r.side) best s).view)
  unfolding take_level make_fill
  taken-take_level s best p c left some_size at =
      let positive : 0 < min s.remaining best.1 = omega arith in
      rw
        (consumed-consume r.instrument_id (opposite r.side) best.0 (min s.remaining best.1) s.view
          v.known positive)
        (
          ground (
            arith,
            volume_on-add (opposite r.side) best.0 (min s.remaining best.1)
                (consumed_liquidity r.instrument_id s.view) (opposite r.side) p fits,
            same_level-opposite r p best.0 v.sided,
            int_beq_iff p best.0,
            int_beq_iff best.0 p,
          ),
          add_volume-IsLadders (opposite r.side) best.0 (min s.remaining best.1)
              (consumed_liquidity r.instrument_id s.view) c.ladders positive fits,
        )
    where
      fits :
          volume_on (opposite r.side) best.0 (consumed_liquidity r.instrument_id s.view)
            + min s.remaining best.1
          < u64_mod
      fits =
          omega
            (arith, room best.0, c.recorded best.0, filled_at-le best.0 s.fills, c.sums, c.total)

  take_level-IsFilled :
      (s : Filling) (best : ℤ × ℕ)
      → IsFilled h r id before s
      → 0 < s.remaining
      → 0 < best.1
      → within_limit r best.0 ≡ true
      → offered h r s.view best.0 ≡ best.1
      → IsFilled h r id before (take_level r id (opposite r.side) best s)
        × ((take_level r id (opposite r.side) best s).remaining < s.remaining)
  unfolding take_level make_fill
  take_level-IsFilled s best c left some_size inside at =
      let size = min s.remaining best.1 in
      let fill : SimulatedFill = make_fill r id best.0 size in
      let split : (p : ℤ)
          → filled_at p (s.fills ++ (fill ∷ [])) ≡ filled_at p s.fills + size_at_price p fill =
        λ p. omega (arith, sum_map-append (size_at_price p) s.fills (fill ∷ [])) in
      let exact : u64 (s.filled_size + size) ≡ s.filled_size + size =
        u64-eq_of_lt (s.filled_size + size) (omega (arith, c.total, v.sized)) in
      (
        record {
          total = omega (arith, exact, c.total);
          sums = omega (arith, exact, c.sums, sum_map-append fill_size_of s.fills (fill ∷ []));
          each =
              All-snoc (IsFillOf r id) s.fills fill c.each
                (record { made = refl; positive = omega arith; within = inside });
          ladders = (taken-take_level s best best.0 c left some_size at).1;
          recorded = λ p.
              omega
                (arith, (taken-take_level s best p c left some_size at).0, split p, c.recorded p);
          offers = λ p. elim (Bool-cases (best.0 == p)) [
            | inl same ↦
                subst (λ q. filled_at q (s.fills ++ (fill ∷ [])) ≤ offered h r before q)
                  ((int_beq_iff best.0 p).0 same)
                  (ground (arith, split best.0, c.recorded best.0, at, int_beq_iff best.0 best.0))
            | inr differs ↦ ground (arith, split p, c.offers p, differs)
          ];
          kept =
              consume-with_consumed r.instrument_id (opposite r.side) best.0 size s.view
              ∙ ap
                  (with_consumed (
                    consume_historical_liquidity r.instrument_id (opposite r.side) best.0 size
                      s.view))
                  c.kept;
        },
        omega arith,
      )

  -- The loop returns: every fill adds up, and nothing remains or nothing within the limit is left.
  abbrev pub Ends : ℕ → Filling → Type 0
  Ends fuel s =
      (s' : Filling) × (fill_loop fuel h r id s ≡ some s')
      × IsFilled h r id before s'
      × ((s'.remaining ≡ 0)
          ⊎ ((p : ℤ) → (if within_limit r p then offered h r s'.view p else 0) ≡ 0))

  after_step :
      (fuel : ℕ) (s : Filling) (o : Option Filling)
      → IsFilled h r id before s
      → fill_step h r id s ≡ o
      → IsStep h r id s o
      → ltb 0 s.remaining ≡ true
      → ((next : Filling)
          → IsFilled h r id before next
          → next.remaining < s.remaining
          → Ends fuel next)
      → Ends (suc fuel) s
  unfolding fill_loop
  after_step fuel s none c e (stop unseen) left again =
      (s, rw (left, e, fill_loop) refl, c, inr unseen)
  after_step fuel s (some next) c e (take t best other inside at some_size) left again =
      let (after, less_left) = take_level-IsFilled s best c (ground arith) some_size inside at in
      let same : next ≡ take_level r id (opposite r.side) best s =
        ap (λ x. take_level r id x best s) other in
      let (s', run, filled, done) =
        again next (subst (IsFilled h r id before) (sym same) after) (rw same less_left) in
      (s', rw (left, e, run, fill_loop) refl, filled, done)

  pub fill_loop-Ends :
      (fuel : ℕ) (s : Filling)
      → IsHistorical h
      → IsFilled h r id before s
      → s.remaining < fuel
      → Ends fuel s
  unfolding fill_loop
  fill_loop-Ends zero s valid c fuelled = absurd (omega arith)
  fill_loop-Ends (suc fuel) s valid c fuelled = elim (Bool-cases (ltb 0 s.remaining)) [
    | inl left ↦
        after_step fuel s (fill_step h r id s) c refl
          (fill_step-IsStep h r id s valid v.sided c.ladders) left
          (λ next filled less_left. fill_loop-Ends fuel next valid filled (omega arith))
    | inr nothing ↦ (s, rw (nothing, fill_loop) refl, c, inl (ground arith))
  ]
