-- ===== src/Map/Laws.antt =====
-- Lookups after each operation of a map.
use backtester_lab.Base.{
  subst, ◌≡◌, refl, ◌≢◌, Option, none, some, Bool, [], ◌∷◌, arith, Eq, ◌==◌, if◌then◌else◌,
  Bool-cases, inl, inr, beq_refl,
}
use backtester_lab.Map.{Map, find, insert, erase, erase_if, Distinct}

module _ {ℓ κ} {K : Type ℓ} {V : Type κ} ⦃e : Eq K⦄ where
  pub find-insert :
      (j k : K) (v : V) (m : Map K V)
      → find j (insert k v m) ≡ (if k == j then some v else find j m)
  unfolding find insert
  find-insert j k v [] = refl
  find-insert j k v ((i, w) ∷ m) =
      ground (arith, e.beq_iff i k, e.beq_iff k j, e.beq_iff i j, find-insert j k v m)

  pub find-insert_self : (k : K) (v : V) (m : Map K V) → find k (insert k v m) ≡ some v
  find-insert_self k v m = rw (find-insert, beq_refl k)

  pub find-insert_ne : (j k : K) (v : V) (m : Map K V) → k ≢ j → find j (insert k v m) ≡ find j m
  find-insert_ne j k v m h = ground (arith, find-insert j k v m, e.beq_iff k j)

  pub find-erase_ne : (j k : K) (m : Map K V) → k ≢ j → find j (erase k m) ≡ find j m
  unfolding find erase
  find-erase_ne j k [] h = refl
  find-erase_ne j k ((i, w) ∷ m) h =
      ground (arith, e.beq_iff i k, e.beq_iff i j, find-erase_ne j k m h)

  pub find-erase_self : (k : K) (m : Map K V) → Distinct m → find k (erase k m) ≡ none
  unfolding find erase
  find-erase_self k [] d = refl
  find-erase_self k ((i, w) ∷ m) d = ground (arith, e.beq_iff i k, find-erase_self k m d.1)

  find-erase_none : (j k : K) (m : Map K V) → find j m ≡ none → find j (erase k m) ≡ none
  unfolding find erase
  find-erase_none j k [] h = refl
  find-erase_none j k ((i, w) ∷ m) h =
      ground (arith, e.beq_iff i k, e.beq_iff i j, find-erase_none j k m)

  pub insert-Distinct : (k : K) (v : V) (m : Map K V) → Distinct m → Distinct (insert k v m)
  unfolding insert find
  insert-Distinct k v [] d = (refl, tt)
  insert-Distinct k v ((i, w) ∷ m) d =
      ground (arith, e.beq_iff i k, e.beq_iff k i, find-insert i k v m, insert-Distinct k v m d.1)

  pub erase-missing : (k : K) (m : Map K V) → find k m ≡ none → erase k m ≡ m
  unfolding find erase
  erase-missing k [] h = refl
  erase-missing k ((i, w) ∷ m) h = ground (arith, e.beq_iff i k, erase-missing k m)

  pub erase-Distinct : (k : K) (m : Map K V) → Distinct m → Distinct (erase k m)
  unfolding erase
  erase-Distinct k [] d = tt
  erase-Distinct k ((i, w) ∷ m) d = ground (arith, find-erase_none i k m, erase-Distinct k m d.1)

  pub find-erase :
      (j k : K) (m : Map K V)
      → Distinct m
      → find j (erase k m) ≡ (if k == j then none else find j m)
  find-erase j k m d = elim (Bool-cases (k == j)) [
    | inl same ↦
        rw same
          (subst (λ i. find i (erase k m) ≡ none) ((e.beq_iff k j).0 same) (find-erase_self k m d))
    | inr other ↦ rw other (find-erase_ne j k m (λ p. ground (arith, e.beq_iff k j)))
  ]

-- What an erasing loop leaves of a key's value.
abbrev pub unless {κ} : {V : Type κ} → (V → Bool) → Option V → Option V
unless p none = none
unless p (some v) = if p v then none else some v

module _ {ℓ κ} {K : Type ℓ} {V : Type κ} ⦃e : Eq K⦄ (p : V → Bool) where
  find-erase_if_none : (j : K) (m : Map K V) → find j m ≡ none → find j (erase_if p m) ≡ none
  unfolding find erase_if
  find-erase_if_none j [] h = refl
  find-erase_if_none j ((i, w) ∷ m) h = ground (arith, e.beq_iff i j, find-erase_if_none j m)

  pub find-erase_if :
      (j : K) (m : Map K V) → Distinct m → find j (erase_if p m) ≡ unless p (find j m)
  unfolding find erase_if
  find-erase_if j [] d = refl
  find-erase_if j ((i, w) ∷ m) d = elim (Bool-cases (i == j)) [
    | inl same ↦
        let gone : find j m ≡ none = subst (λ k. find k m ≡ none) ((e.beq_iff i j).0 same) d.0 in
        ground (arith, same, gone, find-erase_if j m d.1)
    | inr other ↦ ground (arith, other, find-erase_if j m d.1)
  ]

  pub erase_if-Distinct : (m : Map K V) → Distinct m → Distinct (erase_if p m)
  unfolding erase_if
  erase_if-Distinct [] d = tt
  erase_if-Distinct ((i, w) ∷ m) d = ground (arith, find-erase_if_none i m, erase_if-Distinct m d.1)
