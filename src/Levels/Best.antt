-- ===== src/Levels/Best.antt =====
-- The first level of a map, and the copies of its first levels.
use backtester_lab.Base.{
  ℕ, zero, suc, ◌+◌, take, ◌<◌, ◌≡◌, refl, subst, Bool, true, none, some, [], ◌∷◌, arith,
}
use backtester_lab.Levels.{Levels, find_level, volume, first_level, copy_levels}
use backtester_lab.Levels.Order.{StrictOrder, IsLadder}

module _ {ℓ} {K : Type ℓ} (before : K → K → Bool) (o : StrictOrder before) where
  pub volume-first_level :
      (l : Levels K) (k : K) (v : ℕ)
      → IsLadder before l
      → first_level l ≡ some (k, v)
      → (volume before k l ≡ v) × (0 < v)
  unfolding volume find_level first_level
  volume-first_level [] k v s h = ground arith
  volume-first_level ((j, x) ∷ l) k v s h = ground (arith, o.irrefl k, o.irrefl j)

  pub volume-before_first :
      (l : Levels K) (k i : K) (v : ℕ)
      → first_level l ≡ some (k, v)
      → before i k ≡ true
      → volume before i l ≡ 0
  unfolding volume find_level first_level
  volume-before_first [] k i v h b = ground arith
  volume-before_first ((j, x) ∷ l) k i v h b = ground arith

  pub volume-no_level : (l : Levels K) (i : K) → first_level l ≡ none → volume before i l ≡ 0
  unfolding volume find_level first_level
  volume-no_level [] i h = refl
  volume-no_level ((j, x) ∷ l) i h = ground arith

copy_levels-eq-take {ℓ} :
    {K : Type ℓ} (room copied : ℕ) (l : Levels K)
    → copy_levels (room + copied) copied l ≡ take room l
unfolding copy_levels
copy_levels-eq-take zero copied [] = refl
copy_levels-eq-take (suc room) copied [] = refl
copy_levels-eq-take zero copied (x ∷ l) = ground arith
copy_levels-eq-take (suc room) copied (x ∷ l) =
    let e : suc room + copied ≡ room + (copied + 1) = omega arith in
    ground (arith, e, copy_levels-eq-take room (copied + 1) l)

-- The copying loop returns the best `depth` levels.
pub copy_levels-take {ℓ} :
    {K : Type ℓ} (depth : ℕ) (l : Levels K) → copy_levels depth 0 l ≡ take depth l
copy_levels-take depth l =
    let e : depth + 0 ≡ depth = omega arith in
    subst (λ d. copy_levels d 0 l ≡ take depth l) e (copy_levels-eq-take depth 0 l)
