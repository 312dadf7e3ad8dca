-- ===== src/Map/Sums.antt =====
-- How a sum over the values of a map changes with each operation.
use backtester_lab.Base.{
  ℕ, ◌+◌, ◌≤◌, ◌<◌, ltb, Bool-cases, beq_refl, inl, inr, ◌≡◌, some, [], ◌∷◌, arith, Eq,
}
use backtester_lab.Map.{Map, Distinct, find, insert, erase, sum_by, weight_of}

module _ {ℓ κ} {K : Type ℓ} {V : Type κ} ⦃e : Eq K⦄ (w : V → ℕ) where
  pub sum_by-insert :
      (k : K) (v : V) (m : Map K V)
      → sum_by w (insert k v m) + weight_of w (find k m) ≡ sum_by w m + w v
  unfolding sum_by insert find
  sum_by-insert k v [] = omega arith
  sum_by-insert k v ((j, x) ∷ m) = ground (arith, sum_by-insert k v m)

  pub sum_by-erase :
      (k : K) (m : Map K V) → sum_by w (erase k m) + weight_of w (find k m) ≡ sum_by w m
  unfolding sum_by erase find
  sum_by-erase k [] = omega arith
  sum_by-erase k ((j, x) ∷ m) = ground (arith, sum_by-erase k m)

  pub weight-le-sum_by : (k : K) (m : Map K V) → weight_of w (find k m) ≤ sum_by w m
  weight-le-sum_by k m = omega (arith, sum_by-erase k m)

-- Of two weights, the sum by the greater is greater.
pub sum_by-le {ℓ κ} :
    {K : Type ℓ} {V : Type κ} (f g : V → ℕ)
    → ((v : V) → f v ≤ g v)
    → (m : Map K V) → sum_by f m ≤ sum_by g m
unfolding sum_by
sum_by-le f g h [] = omega arith
sum_by-le f g h ((k, v) ∷ m) = omega (arith, h v, sum_by-le f g h m)

-- A positive sum has an entry of positive weight.
pub sum_by-pos {ℓ κ} :
    {K : Type ℓ} {V : Type κ} ⦃e : Eq K⦄ (w : V → ℕ) (m : Map K V)
    → Distinct m
    → 0 < sum_by w m
    → (k : K) × (v : V) × (find k m ≡ some v) × (0 < w v)
unfolding sum_by find
sum_by-pos w [] d h = absurd (omega arith)
sum_by-pos ⦃e⦄ w ((k, v) ∷ m) d h = elim (Bool-cases (ltb 0 (w v))) [
  | inl here ↦ (k, v, rw (beq_refl k), ground arith)
  | inr there ↦
      let (j, x, found, positive) = sum_by-pos ⦃e = e⦄ w m d.1 (ground arith) in
      (j, x, ground (arith, e.beq_iff k j), positive)
]
