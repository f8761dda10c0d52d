-- ===== src/Msan/Poisoned.antt =====
-- Reads that meet poisoned bytes.
use misan.Prelude.{
  ℕ, zero, suc, ◌+◌, ◌-◌, ◌^◌, ◌≤◌, ◌<◌, ◌≡◌, ◌≢◌, false, ◌&&◌, ltb, leb, if◌then◌else◌, u64,
  update, returns, arith,
}
use native.Mathlib.Decide.{ℕ_discrete}
use misan.Common.Platform.{Machine}
use misan.Msan.{
  Msan, msan_shadow_base, msan_shadow_ptr, fill_bytes, msan_poison, msan_check_mem_is_initialized,
}
use misan.Msan.Checks.{are_initialized, msan_check_lem}

pub fill_bytes_lem :
    (rounds i : ℕ) (m : ℕ → ℕ) (p val x : ℕ)
    → p + i + rounds ≤ 2 ^ 64
    → fill_bytes rounds i m p val x ≡ (if leb (p + i) x && ltb x (p + i + rounds) then val else m x)
unfolding fill_bytes update
fill_bytes_lem zero i m p val x fits = ground arith
fill_bytes_lem (suc rounds) i m p val x fits =
    ground (arith, fill_bytes_lem rounds (i + 1) (update m (u64 (p + i)) val) p val x)

are_initialized-false :
    (n i : ℕ) (m : ℕ → ℕ) (addr k : ℕ)
    → i ≤ k
    → k < i + n
    → m (u64 (msan_shadow_ptr addr + k)) ≢ 0
    → are_initialized n i m addr ≡ false
unfolding are_initialized
are_initialized-false zero i m addr k lo hi bad = absurd (omega arith)
are_initialized-false (suc n) i m addr k lo hi bad = elim (ℕ_discrete i k) [
  | yes e ↦ ground (arith, bad, e)
  | no ne ↦ ground (arith, are_initialized-false n (i + 1) m addr k (omega arith) (omega arith) bad)
]

module _ (fuel : ℕ) (machine : Machine) (s : Msan) where
  -- Once a block at an address that is not null, whose shadow does not go round the end of the
  -- address space, is poisoned, no check of a range that has a byte of the block returns.
  pub msan_check-poisoned :
      (beg size addr n k : ℕ)
      → 0 < beg
      → beg + size ≤ 2 ^ 64 - msan_shadow_base
      → 0 < addr
      → k < n
      → beg ≤ addr + k
      → addr + k < beg + size
      → returns (msan_check_mem_is_initialized fuel machine (msan_poison s beg size) addr n) ≡ false
  unfolding msan_poison
  msan_check-poisoned beg size addr n k pos fits pos' inside lo hi =
      rw (msan_check_lem fuel machine (msan_poison s beg size) addr n pos') (
        are_initialized-false n 0 (msan_poison s beg size).memory addr k (omega arith) (omega arith)
          marked)
    where
      same : u64 (msan_shadow_ptr addr + k) ≡ msan_shadow_base + (addr + k)
      same = unfold msan_shadow_ptr in omega arith

      start : msan_shadow_ptr beg ≡ msan_shadow_base + beg
      start = unfold msan_shadow_ptr in omega arith

      marked : (msan_poison s beg size).memory (u64 (msan_shadow_ptr addr + k)) ≢ 0
      marked = ground (
        arith,
        same,
        start,
        fill_bytes_lem size 0 s.memory (msan_shadow_ptr beg) 0xFF (u64 (msan_shadow_ptr addr + k)),
      )
