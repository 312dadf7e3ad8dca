-- ===== src/Levels/Laws.antt =====
-- The volume at every price after each operation, and the order of the keys.
use backtester_lab.Base.{
  ℕ, ◌+◌, ◌-◌, ◌<◌, ◌≡◌, refl, ◌≢◌, Bool, true, none, [], ◌∷◌, arith, u64_mod,
}
use backtester_lab.Levels.{Levels, find_level, add_level, remove_level, volume}
use backtester_lab.Levels.Order.{StrictOrder, After, IsLadder}

module _ {ℓ} {K : Type ℓ} (before : K → K → Bool) (o : StrictOrder before) where
  find_level-After : (k : K) (l : Levels K) → After before k l → find_level before k l ≡ none
  unfolding find_level
  find_level-After k [] a = refl
  find_level-After k ((j, v) ∷ l) a = ground arith

  pub volume-After : (k : K) (l : Levels K) → After before k l → volume before k l ≡ 0
  unfolding volume
  volume-After k l a = ground (arith, find_level-After k l a)

  -- All keys after `j` come after an earlier `k`.
  pub After-trans :
      (k j : K) (l : Levels K) → before k j ≡ true → After before j l → After before k l
  After-trans k j [] h a = tt
  After-trans k j ((i, v) ∷ l) h a = (o.trans k j i h a.0, After-trans k j l h a.1)

  pub volume-add_self :
      (k : K) (n : ℕ) (l : Levels K)
      → volume before k l + n < u64_mod
      → volume before k (add_level before k n l) ≡ volume before k l + n
  unfolding volume find_level add_level
  volume-add_self k n [] h = ground (arith, o.irrefl k)
  volume-add_self k n ((j, v) ∷ l) h = ground (arith, o.irrefl k, volume-add_self k n l)

  pub volume-add_ne :
      (i k : K) (n : ℕ) (l : Levels K)
      → i ≢ k
      → volume before i (add_level before k n l) ≡ volume before i l
  unfolding volume find_level add_level
  volume-add_ne i k n [] h = ground (arith, o.total i k)
  volume-add_ne i k n ((j, v) ∷ l) h =
      ground (arith, o.total i k, o.total k j, o.trans i k j, volume-add_ne i k n l h)

  pub volume-remove_self :
      (k : K) (n : ℕ) (l : Levels K)
      → IsLadder before l
      → volume before k (remove_level before k n l) ≡ volume before k l - n
  unfolding volume find_level remove_level
  volume-remove_self k n [] h = omega arith
  volume-remove_self k n ((j, v) ∷ l) h =
      ground (arith, o.total k j, find_level-After j l h.2, volume-remove_self k n l h.3)

  pub volume-remove_ne :
      (i k : K) (n : ℕ) (l : Levels K)
      → i ≢ k
      → IsLadder before l
      → volume before i (remove_level before k n l) ≡ volume before i l
  unfolding volume find_level remove_level
  volume-remove_ne i k n [] h s = refl
  volume-remove_ne i k n ((j, v) ∷ l) h s = ground (
    arith,
    o.total i k,
    o.total k j,
    o.total i j,
    find_level-After i l,
    After-trans i j l,
    volume-remove_ne i k n l h s.3,
  )

  After-add :
      (j k : K) (n : ℕ) (l : Levels K)
      → before j k ≡ true
      → After before j l
      → After before j (add_level before k n l)
  unfolding add_level
  After-add j k n [] h a = (h, tt)
  After-add j k n ((i, v) ∷ l) h a = ground (arith, After-add j k n l h a.1)

  pub add_level-IsLadder :
      (k : K) (n : ℕ) (l : Levels K)
      → IsLadder before l
      → 0 < n
      → volume before k l + n < u64_mod
      → IsLadder before (add_level before k n l)
  unfolding volume find_level add_level
  add_level-IsLadder k n [] s h b = ground arith
  add_level-IsLadder k n ((j, v) ∷ l) s h b =
      ground
        (arith, o.total k j, After-trans k j l, After-add j k n l, add_level-IsLadder k n l s.3 h)

  After-remove :
      (j k : K) (n : ℕ) (l : Levels K)
      → After before j l
      → After before j (remove_level before k n l)
  unfolding remove_level
  After-remove j k n [] a = tt
  After-remove j k n ((i, v) ∷ l) a = ground (arith, After-remove j k n l a.1)

  pub remove_level-IsLadder :
      (k : K) (n : ℕ) (l : Levels K)
      → IsLadder before l
      → IsLadder before (remove_level before k n l)
  unfolding remove_level
  remove_level-IsLadder k n [] s = tt
  remove_level-IsLadder k n ((j, v) ∷ l) s =
      ground (arith, After-remove j k n l s.2, remove_level-IsLadder k n l s.3)
