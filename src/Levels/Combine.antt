-- ===== src/Levels/Combine.antt =====
-- The `addLevel` and `removeLevel` of src/lob/FillSimulator.cpp and src/lob/SimulatedLOB.cpp, in the
-- loops that put one list of levels on a map, or take it off.
use backtester_lab.Base.{
  ℕ, suc, zero, ◌+◌, ◌-◌, ◌<◌, ◌≡◌, ◌≢◌, refl, sym, ◌∙◌, Bool, false, [], ◌∷◌, arith, if◌then◌else◌,
  ◌==◌, nat_eq, nat_beq_iff, u64_mod, Bool-cases, ◌⊎◌, inl, inr, take, length, subst,
}
use backtester_lab.Levels.{Levels, find_level, add_level, remove_level, volume, copy_levels}
use backtester_lab.Levels.Best.{copy_levels-take}
use backtester_lab.Levels.Order.{StrictOrder, After, IsLadder}
use backtester_lab.Levels.Laws.{
  volume-add_self, volume-add_ne, volume-remove_self, volume-remove_ne, add_level-IsLadder,
  remove_level-IsLadder, volume-After, After-trans,
}

module _ {ℓ} {K : Type ℓ} (before : K → K → Bool) where
  -- `if (size > 0) levels[price] += size`, for each level of the list.
  unfoldable pub add_levels : Levels K → Levels K → Levels K
  add_levels [] l = l
  add_levels ((k, n) ∷ new) l = add_levels new (if n == 0 then l else add_level before k n l)

  unfoldable pub remove_levels : Levels K → Levels K → Levels K
  remove_levels [] l = l
  remove_levels ((k, n) ∷ gone) l = remove_levels gone (remove_level before k n l)

module _ {ℓ} {K : Type ℓ} (before : K → K → Bool) (o : StrictOrder before) where
  -- Equality of keys is decided by the order.
  key-cases : (p k : K) → (p ≡ k) ⊎ (p ≢ k)
  key-cases p k = elim (Bool-cases (before p k)) [
    | inl lower ↦ inr (λ h. ground (arith, h, lower, o.irrefl k))
    | inr not_lower ↦ elim (Bool-cases (before k p)) [
      | inl higher ↦ inr (λ h. ground (arith, h, higher, o.irrefl k))
      | inr not_higher ↦ inl (o.total p k not_lower not_higher)
    ]
  ]

  volume-cons_self : (k : K) (n : ℕ) (l : Levels K) → volume before k ((k, n) ∷ l) ≡ n
  unfolding volume find_level
  volume-cons_self k n l = ground (arith, o.irrefl k)

  volume-cons_ne :
      (p k : K) (n : ℕ) (l : Levels K)
      → p ≢ k
      → After before k l
      → volume before p ((k, n) ∷ l) ≡ volume before p l
  unfolding volume find_level
  volume-cons_ne p k n l h a =
      ground
        (arith, o.total p k, o.total k p, volume-After before o p l, After-trans before o p k l)

  -- A map of levels with another map's levels put on it has the sum of the volumes at each key.
  pub volume-add_levels :
      (new l : Levels K)
      → IsLadder before new
      → IsLadder before l
      → ((p : K) → volume before p l + volume before p new < u64_mod)
      → IsLadder before (add_levels before new l)
        × ((p : K)
            → volume before p (add_levels before new l) ≡ volume before p l + volume before p new)
  unfolding add_levels
  volume-add_levels [] l s t fits = (t, λ p. unfold volume find_level in omega arith)
  volume-add_levels ((k, n) ∷ new) l s t fits =
      let off : (n == 0) ≡ false = ground (arith, nat_beq_iff n 0) in
      let room : volume before k l + n < u64_mod =
        omega (arith, fits k, volume-cons_self k n new) in
      let later : volume before k new ≡ 0 = volume-After before o k new s.2 in
      let added : (p : K)
          → volume before p (add_level before k n l) + volume before p new
            ≡ volume before p l + volume before p ((k, n) ∷ new) =
        λ p. elim (key-cases p k) [
          | inl same ↦
              subst
                (λ q.
                  volume before q (add_level before k n l) + volume before q new
                  ≡ volume before q l + volume before q ((k, n) ∷ new))
                (sym same)
                (omega
                  (arith, volume-add_self before o k n l room, volume-cons_self k n new, later))
          | inr differs ↦
              omega (
                arith,
                volume-add_ne before o p k n l differs,
                volume-cons_ne p k n new differs s.2,
              )
        ] in
      let rest =
        volume-add_levels new (add_level before k n l) s.3
          (add_level-IsLadder before o k n l t s.0 room) (λ p. omega (arith, added p, fits p)) in
      rw off (rest.0, λ p. rest.1 p ∙ added p)

  -- A map of levels with another map's levels taken off has the difference at each key, and none
  -- where more is taken off than there is.
  pub volume-remove_levels :
      (gone l : Levels K)
      → IsLadder before gone
      → IsLadder before l
      → IsLadder before (remove_levels before gone l)
        × ((p : K)
            → volume before p (remove_levels before gone l)
              ≡ volume before p l - volume before p gone)
  unfolding remove_levels
  volume-remove_levels [] l s t = (t, λ p. unfold volume find_level in omega arith)
  volume-remove_levels ((k, n) ∷ gone) l s t =
      let later : volume before k gone ≡ 0 = volume-After before o k gone s.2 in
      let removed : (p : K)
          → volume before p (remove_level before k n l) - volume before p gone
            ≡ volume before p l - volume before p ((k, n) ∷ gone) =
        λ p. elim (key-cases p k) [
          | inl same ↦
              subst
                (λ q.
                  volume before q (remove_level before k n l) - volume before q gone
                  ≡ volume before q l - volume before q ((k, n) ∷ gone))
                (sym same)
                (omega
                  (arith, volume-remove_self before o k n l t, volume-cons_self k n gone, later))
          | inr differs ↦ omega (
            arith,
            volume-remove_ne before o p k n l differs t,
            volume-cons_ne p k n gone differs s.2,
          )
        ] in
      let rest =
        volume-remove_levels gone (remove_level before k n l) s.3
          (remove_level-IsLadder before o k n l t) in
      (rest.0, λ p. rest.1 p ∙ removed p)

  After-take : (k : K) (n : ℕ) (l : Levels K) → After before k l → After before k (take n l)
  After-take k zero l a = tt
  After-take k (suc n) [] a = tt
  After-take k (suc n) (x ∷ l) a = (a.0, After-take k n l a.1)

  pub take-IsLadder : (n : ℕ) (l : Levels K) → IsLadder before l → IsLadder before (take n l)
  take-IsLadder zero l s = tt
  take-IsLadder (suc n) [] s = tt
  take-IsLadder (suc n) ((k, v) ∷ l) s = (s.0, s.1, After-take k n l s.2, take-IsLadder n l s.3)

-- A loop that copies as many levels as there are copies the map.
pub take-length {ℓ} : {K : Type ℓ} (l : Levels K) → take (length l) l ≡ l
take-length [] = refl
take-length (x ∷ l) = ground (arith, take-length l)

module _ {ℓ} {K : Type ℓ} (before : K → K → Bool) (o : StrictOrder before) where
  pub volume-lt : (p : K) (l : Levels K) → IsLadder before l → volume before p l < u64_mod
  unfolding volume find_level
  volume-lt p [] s = omega arith
  volume-lt p ((k, n) ∷ l) s = ground (arith, volume-lt p l s.3)

  -- The levels `l` without what stands in `gone`.
  pub volume-visible :
      (l gone : Levels K)
      → IsLadder before l
      → IsLadder before gone
      → (let seen =
            remove_levels before (copy_levels (length gone) 0 gone) (add_levels before l []) in
          IsLadder before seen
          × ((p : K) → volume before p seen ≡ volume before p l - volume before p gone))
  volume-visible l gone s t =
      let all =
        volume-add_levels before o l [] s tt
          (λ p. unfold volume find_level in omega (arith, volume-lt p l s)) in
      let left = volume-remove_levels before o gone (add_levels before l []) t all.0 in
      rw (copy_levels-take (length gone) gone ∙ take-length gone)
        (left.0, λ p. omega (arith, left.1 p, all.1 p, volume_nil p))
    where
      volume_nil : (p : K) → volume before p [] ≡ 0
      volume_nil p = unfold volume find_level in refl
