-- ===== src/Common/Bytes.antt =====
-- include/sanitizer/common.h, the functions on bytes and strings in memory. Pointers are 64-bit
-- numbers, and the loops without a count take `fuel` rounds, `none` if these are used up.
pub mod Blocks
pub mod Strings
pub mod Marks
use misan.Prelude.{
  ℕ, zero, suc, ◌+◌, ◌-◌, Bool, true, false, ◌&&◌, not, Option, none, some, ◌==◌, ltb,
  if◌then◌else◌, u8, u64, update,
}

abbrev pub Memory : Type 0
Memory = ℕ → ℕ

-- `while (n--) *d++ = (unsigned char)c;`, with `c` as its bits.
unfoldable pub drt_memset : Memory → ℕ → ℕ → ℕ → Memory
drt_memset m d c zero = m
drt_memset m d c (suc n) = drt_memset (update m d (u8 c)) (u64 (d + 1)) c n

-- `while (n--) *d++ = *s++;`.
unfoldable pub drt_memcpy : Memory → ℕ → ℕ → ℕ → Memory
drt_memcpy m d s zero = m
drt_memcpy m d s (suc n) = drt_memcpy (update m d (m s)) (u64 (d + 1)) (u64 (s + 1)) n

-- The two bytes that the result is the difference of: 0 and 0 if the blocks are the same.
unfoldable pub drt_memcmp : Memory → ℕ → ℕ → ℕ → ℕ × ℕ
drt_memcmp m a b zero = (0, 0)
drt_memcmp m a b (suc n) =
    let rest = drt_memcmp m (u64 (a + 1)) (u64 (b + 1)) n in if m a == m b then rest else (m a, m b)

-- The loop of `drt_strlen` from `n` on.
unfoldable pub strlen_from : ℕ → Memory → ℕ → ℕ → Option ℕ
strlen_from zero m s n = none
strlen_from (suc fuel) m s n =
    let rest = strlen_from fuel m s (n + 1) in if m (u64 (s + n)) == 0 then some n else rest

unfoldable pub drt_strlen : ℕ → Memory → ℕ → Option ℕ
drt_strlen fuel m s = strlen_from fuel m s 0

-- The two bytes that the result is the difference of.
unfoldable pub drt_strcmp : ℕ → Memory → ℕ → ℕ → Option (ℕ × ℕ)
drt_strcmp zero m a b = none
drt_strcmp (suc fuel) m a b =
    let rest = drt_strcmp fuel m (u64 (a + 1)) (u64 (b + 1)) in
    if not (m a == 0) && m a == m b then rest else some (m a, m b)
