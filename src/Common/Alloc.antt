-- ===== src/Common/Alloc.antt =====
-- src/common/san_printf.c, the internal allocator as one thread meets it: the exchange of
-- `drt_bump_used` succeeds in its first round. A block is its offset in `drt_bump_pool`.
pub mod Blocks
pub mod Threads
use misan.Prelude.{
  ℕ, ◌+◌, ◌*◌, ◌-◌, ◌%◌, ◌^◌, ltb, if◌then◌else◌, u64, sub64, bit_and, bit_not, Exec, pure, [],
}
use misan.Common.Printf.{drt_die}

abbrev pub pool_size : ℕ
pool_size = 256 * 1024

-- `newv` of a round, from the value of `drt_bump_used` that it loads.
unfoldable pub rounded_end : ℕ → ℕ → ℕ
rounded_end old size = u64 (bit_and (u64 (old + 7)) (bit_not 7) + size)

-- The block and the new `drt_bump_used`.
unfoldable pub drt_internal_alloc : ℕ → ℕ → ℕ → Exec (ℕ × ℕ)
unfolding rounded_end
drt_internal_alloc fuel used size =
    let newv = rounded_end used size in
    if ltb pool_size newv
    then drt_die fuel "drt_internal_alloc: out of memory" []
    else pure (sub64 newv size, newv)

-- A block is never given back: `drt_bump_used` stays.
unfoldable drt_internal_free : ℕ → ℕ → ℕ
drt_internal_free used ptr = used

-- The new `drt_bump_used`.
unfoldable drt_internal_alloc_reset : ℕ → ℕ
drt_internal_alloc_reset used = 0
