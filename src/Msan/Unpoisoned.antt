-- ===== src/Msan/Unpoisoned.antt =====
-- What unpoisoning does to the shadow: the origins that it resets overlap the shadow of others.
use misan.Prelude.{
  ℕ, zero, suc, ◌+◌, ◌*◌, ◌^◌, ◌≤◌, ◌<◌, ◌≡◌, true, ◌&&◌, ltb, leb, if◌then◌else◌, u64, update,
  returns, arith, ◌∙◌,
}
use misan.Common.Platform.{Machine}
use misan.Msan.{
  Msan, msan_shadow_base, msan_origin_base, msan_shadow_ptr, msan_origin_ptr, fill_bytes,
  fill_words, store_u32, msan_unpoison, msan_check_mem_is_initialized,
}
use misan.Msan.Checks.{are_initialized, msan_check_lem}
use misan.Msan.Poisoned.{fill_bytes_lem}

store_u32-zero :
    (m : ℕ → ℕ) (p x : ℕ)
    → p + 4 ≤ 2 ^ 64
    → store_u32 m p 0 x ≡ (if leb p x && ltb x (p + 4) then 0 else m x)
unfolding store_u32 update
store_u32-zero m p x fits = ground arith

fill_words-zero :
    (rounds i : ℕ) (m : ℕ → ℕ) (p x : ℕ)
    → p + 4 * i + 4 * rounds ≤ 2 ^ 64
    → fill_words rounds i m p 0 x
      ≡ (if leb (p + 4 * i) x && ltb x (p + 4 * i + 4 * rounds) then 0 else m x)
unfolding fill_words
fill_words-zero zero i m p x fits = ground arith
fill_words-zero (suc rounds) i m p x fits = ground (
  arith,
  fill_words-zero rounds (i + 1) (store_u32 m (u64 (p + 4 * i)) 0) p x,
  store_u32-zero m (p + 4 * i) x,
)

-- The shadow byte of an address.
abbrev pub msan_shadow : Msan → ℕ → ℕ
msan_shadow s x = s.memory (msan_shadow_ptr x)

pub shadow_ptr_low : (x : ℕ) → x < 2 ^ 47 → msan_shadow_ptr x ≡ msan_shadow_base + x
unfolding msan_shadow_ptr
shadow_ptr_low x low = omega arith

pub origin_ptr_low : (x : ℕ) → x < 40 * 2 ^ 40 → msan_origin_ptr x ≡ msan_origin_base + 4 * x
unfolding msan_origin_ptr
origin_ptr_low x low = omega arith

module _ (s : Msan) (beg size x : ℕ) where
  unpoisoned_byte :
      0 < beg
      → 0 < size
      → beg + size ≤ 40 * 2 ^ 40
      → x < 2 ^ 47
      → msan_shadow (msan_unpoison s beg size) x ≡ (
          if s.track_origins && (leb (4 * beg) (2 ^ 44 + x) && ltb (2 ^ 44 + x) (4 * (beg + size)))
          then 0
          else (if leb beg x && ltb x (beg + size) then 0 else msan_shadow s x))
  unfolding msan_unpoison
  unpoisoned_byte pos nonempty low low' = ground (
    arith,
    shadow_ptr_low x low',
    shadow_ptr_low beg (omega arith),
    origin_ptr_low beg (omega arith),
    fill_bytes_lem size 0 s.memory (msan_shadow_ptr beg) 0 (msan_shadow_ptr x),
    fill_words-zero size 0 (fill_bytes size 0 s.memory (msan_shadow_ptr beg) 0)
        (msan_origin_ptr beg) (msan_shadow_ptr x),
  )

  -- Unpoisoning a nonempty block that ends at or below 2^42 at an address that is not null sets,
  -- of the addresses below 2^47, the shadow of those in the block to 0 and changes no other.
  pub msan_unpoison_lem :
      0 < beg
      → 0 < size
      → beg + size ≤ 2 ^ 42
      → x < 2 ^ 47
      → msan_shadow (msan_unpoison s beg size) x
        ≡ (if leb beg x && ltb x (beg + size) then 0 else msan_shadow s x)
  msan_unpoison_lem pos nonempty low low' =
      unpoisoned_byte pos nonempty (omega arith) low' ∙ ground arith

  -- With origins tracked, unpoisoning a block from 2^42 on whose origins lie over the shadow of
  -- an address below 2^47 that is not null, and that ends at or below 40 * 2^40, lets the check
  -- of this other address return, whatever was poisoned before.
  pub msan_unpoison-overlaps :
      (fuel : ℕ) (machine : Machine)
      → s.track_origins ≡ true
      → 0 < size
      → 2 ^ 42 ≤ beg
      → beg + size ≤ 40 * 2 ^ 40
      → 0 < x
      → x < 2 ^ 47
      → 4 * beg ≤ 2 ^ 44 + x
      → 2 ^ 44 + x < 4 * (beg + size)
      → returns (msan_check_mem_is_initialized fuel machine (msan_unpoison s beg size) x 1) ≡ true
  unfolding are_initialized
  msan_unpoison-overlaps fuel machine tracked nonempty high low pos low' lo hi =
      msan_check_lem fuel machine (msan_unpoison s beg size) x 1 pos
      ∙ ground (arith, here, cleared, shadow_ptr_low x low')
    where
      here : u64 (msan_shadow_ptr x + 0) ≡ msan_shadow_ptr x
      here = unfold msan_shadow_ptr in omega arith

      cleared : msan_shadow (msan_unpoison s beg size) x ≡ 0
      cleared = unpoisoned_byte (omega arith) nonempty low low' ∙ ground arith
