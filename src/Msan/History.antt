-- ===== src/Msan/History.antt =====
-- Sequences of `__msan_poison`, `__msan_unpoison` and `__msan_set_origin` of src/msan/msan_rtl.c,
-- against a set of poisoned bytes.
use misan.Prelude.{
  ℕ, zero, suc, ◌+◌, ◌*◌, ◌^◌, ◌≤◌, ◌<◌, ◌≡◌, Bool, true, false, ◌&&◌, ◌||◌, not, List, [], ◌∷◌,
  All, u64, update, returns, arith, refl, ap, ◌∙◌,
}
use misan.Common.Bytes.Marks.{covers, shadow_byte}
use misan.Common.Platform.{Machine}
use misan.Common.Mapping.{Mmap, IsMmap, drt_arch_map_shadow_memory}
use misan.Common.Mapping.Zeroed.{map_shadow-zero, map_shadow-keeps_zero}
use misan.Msan.{
  Msan, msan_shadow_base, msan_origin_base, msan_shadow_ptr, msan_origin_ptr, fill_words, store_u32,
  msan_unpoison, msan_poison, msan_set_origin, msan_check_mem_is_initialized,
}
use misan.Msan.Checks.{are_initialized, msan_check_lem}
use misan.Msan.Poisoned.{fill_bytes_lem}
use misan.Msan.Unpoisoned.{msan_shadow, shadow_ptr_low, origin_ptr_low, msan_unpoison_lem}
use misan.Msan.Start.{msan_init}

-- A call, with the address and the size of the block, and the id of an origin.
pub data Call : Type 0 where
  poison : ℕ → ℕ → Call
  unpoison : ℕ → ℕ → Call
  set_origin : ℕ → ℕ → ℕ → Call

unfoldable pub perform : Call → Msan → Msan
perform (poison addr size) s = msan_poison s addr size
perform (unpoison addr size) s = msan_unpoison s addr size
perform (set_origin addr size id) s = msan_set_origin s addr size id

unfoldable pub perform_all : List Call → Msan → Msan
perform_all [] s = s
perform_all (c ∷ cs) s = perform_all cs (perform c s)

-- The specification: whether a byte is poisoned after the calls. Origins play no part.
unfoldable pub is_poisoned : List Call → ℕ → Bool → Bool
is_poisoned [] x before = before
is_poisoned (poison addr size ∷ cs) x before = is_poisoned cs x (covers addr size x || before)
is_poisoned (unpoison addr size ∷ cs) x before =
    is_poisoned cs x (not (covers addr size x) && before)
is_poisoned (set_origin addr size id ∷ cs) x before = is_poisoned cs x before

-- No byte of the `n` bytes from `x` on is poisoned.
unfoldable pub are_clear : List Call → ℕ → ℕ → Bool
are_clear cs zero x = true
are_clear cs (suc n) x = not (is_poisoned cs x false) && are_clear cs n (x + 1)

-- The blocks lie where origins do not meet the shadow.
abbrev pub IsBlock : ℕ → ℕ → Type 0
IsBlock addr size = (0 < addr) × (addr + size ≤ 2 ^ 42)

abbrev pub IsLow : Call → Type 0
IsLow (poison addr size) = IsBlock addr size
IsLow (unpoison addr size) = IsBlock addr size
IsLow (set_origin addr size id) = IsBlock addr size

store_u32-outside : (m : ℕ → ℕ) (p val x : ℕ) → p + 4 ≤ x → x < 2 ^ 64 → store_u32 m p val x ≡ m x
unfolding store_u32 update
store_u32-outside m p val x lo hi = ground arith

fill_words-outside :
    (rounds i : ℕ) (m : ℕ → ℕ) (p val x : ℕ)
    → p + 4 * i + 4 * rounds ≤ x
    → x < 2 ^ 64
    → fill_words rounds i m p val x ≡ m x
unfolding fill_words
fill_words-outside zero i m p val x lo hi = refl
fill_words-outside (suc rounds) i m p val x lo hi = ground (
  arith,
  fill_words-outside rounds (i + 1) (store_u32 m (u64 (p + 4 * i)) val) p val x,
  store_u32-outside m (p + 4 * i) val x,
)

module _ (x : ℕ) (low : x < 2 ^ 47) where
  poison-byte :
      (s : Msan) (addr size : ℕ) (b : Bool)
      → IsBlock addr size
      → msan_shadow s x ≡ shadow_byte b
      → msan_shadow (msan_poison s addr size) x ≡ shadow_byte (covers addr size x || b)
  unfolding msan_poison
  poison-byte s addr size b block old = ground (
    arith,
    block,
    old,
    shadow_ptr_low x low,
    shadow_ptr_low addr (omega (arith, block)),
    fill_bytes_lem size 0 s.memory (msan_shadow_ptr addr) 0xFF (msan_shadow_ptr x),
  )

  unpoison-byte :
      (s : Msan) (addr size : ℕ) (b : Bool)
      → IsBlock addr size
      → msan_shadow s x ≡ shadow_byte b
      → msan_shadow (msan_unpoison s addr size) x ≡ shadow_byte (not (covers addr size x) && b)
  unfolding msan_unpoison
  unpoison-byte s addr zero b block old = ground (arith, old)
  unpoison-byte s addr (suc size) b block old =
      msan_unpoison_lem s addr (suc size) x block.0 (omega arith) block.1 low ∙ ground (arith, old)

  set_origin-byte :
      (s : Msan) (addr size id : ℕ)
      → IsBlock addr size
      → msan_shadow (msan_set_origin s addr size id) x ≡ msan_shadow s x
  unfolding msan_set_origin
  set_origin-byte s addr size id block = ground (
    arith,
    block,
    shadow_ptr_low x low,
    origin_ptr_low addr (omega (arith, block)),
    fill_words-outside size 0 s.memory (msan_origin_ptr addr) id (msan_shadow_ptr x),
  )

  -- The shadow of a byte says whether it is poisoned.
  perform_all-byte :
      (cs : List Call) (s : Msan) (b : Bool)
      → All IsLow cs
      → msan_shadow s x ≡ shadow_byte b
      → msan_shadow (perform_all cs s) x ≡ shadow_byte (is_poisoned cs x b)
  unfolding perform_all perform is_poisoned
  perform_all-byte [] s b blocks old = old
  perform_all-byte (poison addr size ∷ cs) s b (v, vs) old =
      perform_all-byte cs (msan_poison s addr size) (covers addr size x || b) vs
        (poison-byte s addr size b v old)
  perform_all-byte (unpoison addr size ∷ cs) s b (v, vs) old =
      perform_all-byte cs (msan_unpoison s addr size) (not (covers addr size x) && b) vs
        (unpoison-byte s addr size b v old)
  perform_all-byte (set_origin addr size id ∷ cs) s b (v, vs) old =
      perform_all-byte cs (msan_set_origin s addr size id) b vs
        (set_origin-byte s addr size id v ∙ old)

  -- After a start with a mapping of the shadow that succeeds the byte is initialized, although the
  -- origins are mapped over a part of the shadow.
  msan_init-zero :
      (mmap : Mmap) (s : Msan)
      → IsMmap mmap
      → (drt_arch_map_shadow_memory mmap msan_shadow_base (2 ^ 47) s.memory).0 ≡ true
      → msan_shadow (msan_init mmap (false, s)).1 x ≡ 0
  unfolding msan_init
  msan_init-zero mmap s law ok =
      map_shadow-keeps_zero mmap msan_origin_base (2 ^ 47) _ (msan_shadow_ptr x) law (omega arith)
        (omega arith)
        (rw (shadow_ptr_low x low) (
          map_shadow-zero mmap msan_shadow_base (2 ^ 47) s.memory law (omega arith) (omega arith) ok
            (msan_shadow_base + x) (omega arith) (omega arith)))

are_initialized-are_clear :
    (n i : ℕ) (s : Msan) (cs : List Call) (addr : ℕ)
    → addr + i + n ≤ 2 ^ 47
    → ((x : ℕ) → x < 2 ^ 47 → msan_shadow s x ≡ shadow_byte (is_poisoned cs x false))
    → are_initialized n i s.memory addr ≡ are_clear cs n (addr + i)
unfolding are_initialized are_clear
are_initialized-are_clear zero i s cs addr fits byte = refl
are_initialized-are_clear (suc n) i s cs addr fits byte =
    ground (arith, here, byte (addr + i), are_initialized-are_clear n (i + 1) s cs addr)
  where
    here : u64 (msan_shadow_ptr addr + i) ≡ msan_shadow_ptr (addr + i)
    here = unfold msan_shadow_ptr in omega arith

-- If the mapping of the shadow succeeds, then after the start and any sequence of calls that
-- poison, unpoison and set the origin of blocks at addresses that are not null and end at or
-- below 2^42, the check of a range that starts at an address that is not null and ends at or
-- below 2^47 returns exactly when none of its bytes is in the set of the poisoned bytes that the
-- calls describe.
pub msan_check-are_clear :
    (fuel : ℕ) (machine : Machine) (mmap : Mmap) (s : Msan) (cs : List Call) (addr n : ℕ)
    → IsMmap mmap
    → (drt_arch_map_shadow_memory mmap msan_shadow_base (2 ^ 47) s.memory).0 ≡ true
    → All IsLow cs
    → 0 < addr
    → addr + n ≤ 2 ^ 47
    → returns (
        msan_check_mem_is_initialized fuel machine
          (perform_all cs (msan_init mmap (false, s)).1)
          addr
          n)
      ≡ are_clear cs n addr
msan_check-are_clear fuel machine mmap s cs addr n law ok blocks pos fits =
    msan_check_lem fuel machine (perform_all cs (msan_init mmap (false, s)).1) addr n pos
    ∙ are_initialized-are_clear n 0 (perform_all cs (msan_init mmap (false, s)).1) cs addr
        (omega arith)
        (λ x low.
          perform_all-byte x low cs (msan_init mmap (false, s)).1 false blocks
            (msan_init-zero x low mmap s law ok))
    ∙ ap (are_clear cs n) (omega arith)
