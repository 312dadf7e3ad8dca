-- ===== src/Map.antt =====
-- `std::unordered_map` as an association list. No operation of the program depends on the order
-- in which such a map is walked.
pub mod Laws
pub mod Sums
use backtester_lab.Base.{
  ℕ, ◌+◌, ◌≡◌, Bool, true, false, Option, none, some, List, [], ◌∷◌, Eq, ◌==◌, if◌then◌else◌,
}

abbrev pub Map {ℓ κ} : Type ℓ → Type κ → Type (ℓ ⊔ κ)
Map K V = List (K × V)

module _ {ℓ κ} {K : Type ℓ} {V : Type κ} ⦃e : Eq K⦄ where
  unfoldable pub find : K → Map K V → Option V
  find k [] = none
  find k ((j, v) ∷ m) = if j == k then some v else find k m

  -- `m[k] = v`
  unfoldable pub insert : K → V → Map K V → Map K V
  insert k v [] = (k, v) ∷ []
  insert k v ((j, w) ∷ m) = if j == k then (k, v) ∷ m else (j, w) ∷ insert k v m

  unfoldable pub erase : K → Map K V → Map K V
  erase k [] = []
  erase k ((j, w) ∷ m) = if j == k then m else (j, w) ∷ erase k m

  -- `m.find(k) != m.end()`
  unfoldable pub contains : K → Map K V → Bool
  contains k m = elim (find k m) [ none ↦ false | some v ↦ true ]

  -- No key stands twice.
  abbrev pub Distinct : Map K V → Type κ
  Distinct [] = Unit
  Distinct ((k, v) ∷ m) = (find k m ≡ none) × Distinct m

-- The entries whose value fails the test: what a loop that erases by an iterator leaves.
unfoldable pub erase_if {ℓ κ} : {K : Type ℓ} {V : Type κ} → (V → Bool) → Map K V → Map K V
erase_if p [] = []
erase_if p ((k, v) ∷ m) = let rest = erase_if p m in if p v then rest else (k, v) ∷ rest

-- The sum of a weight over the values.
unfoldable pub sum_by {ℓ κ} : {K : Type ℓ} {V : Type κ} → (V → ℕ) → Map K V → ℕ
sum_by w [] = 0
sum_by w ((k, v) ∷ m) = w v + sum_by w m

-- The weight of what a lookup finds.
abbrev pub weight_of {κ} : {V : Type κ} → (V → ℕ) → Option V → ℕ
weight_of w none = 0
weight_of w (some v) = w v
