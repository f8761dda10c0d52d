-- ===== src/Tsan/Table/Stable.antt =====
-- A second walk after a slot was taken or rewritten.
use misan.Prelude.{ℕ, zero, suc, ◌+◌, ◌%◌, Bool, true, Option, none, some, ◌≡◌, ◌≢◌, arith}
use misan.Tsan.Table.{found, claimed, probe}

module _ (holds holds' : ℕ → Option ℕ) (size addr i : ℕ) (was : holds i ≡ none)
    (now : holds' i ≡ some addr) (others : (j : ℕ) → j ≢ i → holds' j ≡ holds j) where
  -- Once the walk has taken a slot for an address, it finds that slot.
  pub probe-claimed-found :
      (alloc : Bool) (rounds start idx : ℕ)
      → probe holds size addr true rounds start idx ≡ claimed i
      → probe holds' size addr alloc rounds start idx ≡ found i
  unfolding probe
  probe-claimed-found alloc zero start idx h = cc
  probe-claimed-found alloc (suc rounds) start idx h =
      ground (arith, others idx, probe-claimed-found alloc rounds start ((idx + 1) % size))
