-- ===== src/Lob/HistoricalLobStore/Preserve.antt =====
-- The invariant of the store: each book stands under its own instrument.
use backtester_lab.Base.{ℕ, ◌≡◌, ◌≢◌, refl, [], some, arith, nat_eq, Option-cases, inl, inr}
use backtester_lab.Map.{Map, find}
use backtester_lab.Lob.HistoricalLob
use backtester_lab.Lob.HistoricalLob.{HistoricalLob, LobSnapshot, empty_lob}
use backtester_lab.Lob.HistoricalLob.Preserve.{IsValidLob}
use backtester_lab.Lob.HistoricalLobStore.{HistoricalLobStore, snapshot}

-- A book of the store: it names its instrument, and its levels are the sums of its orders.
pub record IsStored (k : ℕ) (b : HistoricalLob) : Type 0 where
  pub named : b.instrument_id ≡ k
  pub identified : k ≢ 0
  pub valid : IsValidLob b

abbrev pub IsStore : HistoricalLobStore → Type 0
IsStore books = (k : ℕ) (b : HistoricalLob) → find k books ≡ some b → IsStored k b

pub empty-IsStore : IsStore []
unfolding find
empty-IsStore k b h = ground arith

-- A snapshot of a valid store names the instrument that was asked for, also where there is no book.
pub snapshot-instrument :
    (k depth : ℕ) (books : HistoricalLobStore)
    → IsStore books
    → (snapshot k depth books).instrument_id ≡ k
unfolding snapshot HistoricalLob.snapshot
snapshot-instrument k depth books v = elim (Option-cases (find k books)) [
  | inl missing ↦ rw (missing, snapshot) refl
  | inr (b, found) ↦ rw (found, snapshot) (v k b found).named
]
