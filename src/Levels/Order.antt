-- ===== src/Levels/Order.antt =====
-- The two orders of prices, and the invariant of a map of levels: keys in order, no empty level.
use backtester_lab.Base.{◌<◌, ◌≡◌, Bool, true, false, [], ◌∷◌, u64_mod}
use backtester_lab.Base.Int.{ℤ, ltb_ℤ, ltb_ℤ_irrefl, ltb_ℤ_trans, ltb_ℤ_total}
use backtester_lab.Levels.{Levels}

-- What `std::map` asks of its comparison, and that only equal keys are equivalent.
pub record StrictOrder {ℓ} {K : Type ℓ} (before : K → K → Bool) : Type ℓ where
  pub irrefl : (a : K) → before a a ≡ false
  pub trans : (a b c : K) → before a b ≡ true → before b c ≡ true → before a c ≡ true
  pub total : (a b : K) → before a b ≡ false → before b a ≡ false → a ≡ b

-- `std::less` and `std::greater`.
abbrev pub less : ℤ → ℤ → Bool
less a b = ltb_ℤ a b

abbrev pub greater : ℤ → ℤ → Bool
greater a b = ltb_ℤ b a

pub less-StrictOrder : StrictOrder less
less-StrictOrder = record { irrefl = ltb_ℤ_irrefl; trans = ltb_ℤ_trans; total = ltb_ℤ_total }

pub greater-StrictOrder : StrictOrder greater
greater-StrictOrder = record {
  irrefl = ltb_ℤ_irrefl;
  trans = λ a b c h k. ltb_ℤ_trans c b a k h;
  total = λ a b h k. ltb_ℤ_total a b k h;
}

module _ {ℓ} {K : Type ℓ} (before : K → K → Bool) where
  -- Every key of the list comes after `k`.
  abbrev pub After : K → Levels K → Type 0
  After k [] = Unit
  After k ((j, v) ∷ l) = (before k j ≡ true) × After k l

  abbrev pub IsLadder : Levels K → Type 0
  IsLadder [] = Unit
  IsLadder ((k, v) ∷ l) = (0 < v) × (v < u64_mod) × After k l × IsLadder l
