-- ===== src/Common/Alloc/Blocks.antt =====
-- The blocks that the internal allocator hands out.
use misan.Prelude.{
  ℕ, ◌+◌, ◌*◌, ◌/◌, ◌%◌, ◌^◌, ◌≤◌, ◌<◌, ◌≡◌, false, [], done, returns, arith, refl,
  bit_and-not_seven, u64,
}
use misan.Common.Printf.Ends.{drt_die-returns}
use misan.Common.Alloc.{pool_size, drt_internal_alloc}

module _ (fuel used size : ℕ) (within : used ≤ pool_size) where
  pub drt_internal_alloc-runs :
      (used + 7) / 8 * 8 + size ≤ pool_size
      → drt_internal_alloc fuel used size ≡ done [] ((used + 7) / 8 * 8, (used + 7) / 8 * 8 + size)
  unfolding drt_internal_alloc
  drt_internal_alloc-runs room = ground (arith, bit_and-not_seven (u64 (used + 7)))

  -- While the bytes in use and the block rounded to 8 fit the pool, an allocation returns a block
  -- that is a multiple of 8, begins behind all that is in use, and ends inside the pool where the
  -- next one may begin.
  pub drt_internal_alloc_lem :
      (used + 7) / 8 * 8 + size ≤ pool_size
      → (block : ℕ) × (used' : ℕ) × (drt_internal_alloc fuel used size ≡ done [] (block, used'))
        × (block % 8 ≡ 0)
        × (used ≤ block)
        × (used' ≡ block + size)
        × (used' ≤ pool_size)
  drt_internal_alloc_lem room = (
    (used + 7) / 8 * 8,
    (used + 7) / 8 * 8 + size,
    drt_internal_alloc-runs room,
    omega arith,
    omega arith,
    refl,
    room,
  )

  pub drt_internal_alloc-full :
      pool_size < (used + 7) / 8 * 8 + size
      → size ≤ 2 ^ 63
      → returns (drt_internal_alloc fuel used size) ≡ false
  unfolding drt_internal_alloc
  drt_internal_alloc-full full le = ground (
    arith,
    bit_and-not_seven (u64 (used + 7)),
    drt_die-returns (ℕ × ℕ) fuel "drt_internal_alloc: out of memory" [],
  )
