-- ===== src/Levels.antt =====
-- `std::map<Price, Quantity>` as a list of levels in the map's order. The order is a parameter:
-- `std::greater` for bids, `std::less` for asks. Volumes wrap at 2 ^ 64.
pub mod Order
pub mod Laws
pub mod Best
pub mod Combine
use backtester_lab.Base.{
  ℕ, ◌+◌, ◌-◌, Bool, Option, none, some, List, [], ◌∷◌, if◌then◌else◌, leb, u64,
}

abbrev pub Levels {ℓ} : Type ℓ → Type ℓ
Levels K = List (K × ℕ)

module _ {ℓ} {K : Type ℓ} (before : K → K → Bool) where
  -- `m.find(k)`
  unfoldable pub find_level : K → Levels K → Option ℕ
  find_level k [] = none
  find_level k ((j, v) ∷ l) =
      let rest = find_level k l in if before k j then none else if before j k then rest else some v

  -- `m[k] += n`
  unfoldable pub add_level : K → ℕ → Levels K → Levels K
  add_level k n [] = (k, u64 n) ∷ []
  add_level k n ((j, v) ∷ l) =
      let rest = add_level k n l in
      if before k j
      then (k, u64 n) ∷ (j, v) ∷ l
      else if before j k
      then (j, v) ∷ rest
      else (j, u64 (v + n)) ∷ l

  -- Find `k`; erase it if its volume is at most `n`, and take `n` off otherwise.
  unfoldable pub remove_level : K → ℕ → Levels K → Levels K
  remove_level k n [] = []
  remove_level k n ((j, v) ∷ l) =
      let rest = remove_level k n l in
      if before k j
      then (j, v) ∷ l
      else if before j k
      then (j, v) ∷ rest
      else if leb v n
      then l
      else (j, v - n) ∷ l

  -- `it == m.end() ? 0 : it->second`
  unfoldable pub volume : K → Levels K → ℕ
  volume k l = elim (find_level k l) [ none ↦ 0 | some v ↦ v ]

-- `m.begin()`
unfoldable pub first_level {ℓ} : {K : Type ℓ} → Levels K → Option (K × ℕ)
first_level [] = none
first_level (x ∷ l) = some x

-- The loop that copies levels while `copied++ < depth`.
unfoldable pub copy_levels {ℓ} : {K : Type ℓ} → ℕ → ℕ → Levels K → Levels K
copy_levels depth copied [] = []
copy_levels depth copied (x ∷ l) =
    let rest = copy_levels depth (copied + 1) l in if leb depth copied then [] else x ∷ rest
