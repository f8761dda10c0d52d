-- ===== src/Tsan/Table/Findable.antt =====
-- Walks over a table in which one slot changes.
use misan.Prelude.{
  ap, ℕ, zero, suc, ◌+◌, ◌%◌, false, true, Option, none, some, ◌≡◌, ◌≢◌, refl, arith,
}
use misan.Tsan.Table.{found, claimed, nowhere, probe}

module _ (holds holds' : ℕ → Option ℕ) (size addr c : ℕ)
    (others : (j : ℕ) → j ≢ c → holds' j ≡ holds j) where
  -- A slot that does not have the address, before and after, is no matter to a walk that takes none.
  pub probe-ignores :
      (rounds start idx : ℕ)
      → holds c ≢ some addr
      → holds' c ≢ some addr
      → probe holds' size addr false rounds start idx ≡ probe holds size addr false rounds start idx
  unfolding probe
  probe-ignores zero start idx before now = refl
  probe-ignores (suc rounds) start idx before now =
      ground
        (arith, before, now, others idx, probe-ignores rounds start ((idx + 1) % size) before now)

  -- A walk that would take a free slot, and finds the address, meets no free slot.
  pub probe-found-keeps :
      (i rounds start idx : ℕ)
      → holds c ≡ none
      → probe holds size addr true rounds start idx ≡ found i
      → probe holds' size addr true rounds start idx ≡ found i
  unfolding probe
  probe-found-keeps i zero start idx free h = h
  probe-found-keeps i (suc rounds) start idx free h =
      ground (arith, free, others idx, probe-found-keeps i rounds start ((idx + 1) % size) free)

pub found-inj : {i j : ℕ} → found i ≡ found j → i ≡ j
found-inj e = ap (λ slot. elim slot as (λ x. ℕ) [ found k ↦ k | claimed k ↦ k | nowhere ↦ 0 ]) e
