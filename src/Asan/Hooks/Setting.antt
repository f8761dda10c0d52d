-- ===== src/Asan/Hooks/Setting.antt =====
-- The shadow setters of the instrumentation against poisoning and unpoisoning.
use misan.Prelude.{
  ℕ, zero, suc, ◌+◌, ◌-◌, ◌/◌, ◌%◌, ◌^◌, update, u64, ◌≡◌, ◌≤◌, arith, refl, ◌∙◌, bit_and-not_seven,
}
use misan.Asan.Hooks.{
  asan_set_shadow_00, asan_set_shadow_f1, asan_set_shadow_f2, asan_set_shadow_f3,
  asan_set_shadow_f5, asan_set_shadow_f8,
}
use misan.Asan.Shadow.{
  Memory, asan_shadow_base, fill, set_bytes, misan_set_shadow, asan_poison_range,
  asan_unpoison_range,
}
use misan.Asan.Shadow.Ranges.{app_limit, asan_mem_to_shadow_lem}

-- While the shadow address does not go round, the indexed loop is the one along pointers.
set_bytes-fill :
    (rounds : ℕ) (m : Memory) (shadow i val : ℕ)
    → shadow + i + rounds ≤ 2 ^ 64
    → set_bytes rounds m shadow i val ≡ fill rounds m (shadow + i) val
unfolding set_bytes fill
set_bytes-fill zero m shadow i val fits = refl
set_bytes-fill (suc rounds) m shadow i val fits =
    let here : u64 (shadow + i) ≡ shadow + i = omega arith in
    let next : shadow + (i + 1) ≡ shadow + i + 1 = omega arith in
    rw here (
      set_bytes-fill rounds (update m (shadow + i) val) shadow (i + 1) val (omega arith)
      ∙ rw next refl)

module _ (m : Memory) (addr size : ℕ) (whole : addr % 8 ≡ 0) (full : size % 8 ≡ 0)
    (fits : addr + size ≤ app_limit) where
  set_shadow-poison :
      (val : ℕ) → misan_set_shadow m addr size val ≡ asan_poison_range m addr size val
  unfolding misan_set_shadow asan_poison_range
  set_shadow-poison val = ground (
    arith,
    asan_mem_to_shadow_lem addr,
    asan_mem_to_shadow_lem (addr + size - 1),
    bit_and-not_seven addr,
    set_bytes-fill (size / 8) m (asan_shadow_base + addr / 8) 0 val,
  )

  set_shadow-unpoison : misan_set_shadow m addr size 0 ≡ asan_unpoison_range m addr size
  unfolding misan_set_shadow asan_unpoison_range
  set_shadow-unpoison = ground (
    arith,
    asan_mem_to_shadow_lem addr,
    asan_mem_to_shadow_lem (addr + size - 1),
    set_bytes-fill (size / 8) m (asan_shadow_base + addr / 8) 0 0,
  )

  -- For whole grains that end at or below 2^50 - 8, each of the six functions that set the shadow
  -- to a value leaves the memory that poisoning the range with that value leaves, or, for the
  -- value 0, unpoisoning it.
  pub asan_set_shadow-poison_range :
      (asan_set_shadow_f1 m addr size ≡ asan_poison_range m addr size 0xF1)
      × (asan_set_shadow_f2 m addr size ≡ asan_poison_range m addr size 0xF2)
      × (asan_set_shadow_f3 m addr size ≡ asan_poison_range m addr size 0xF3)
      × (asan_set_shadow_f5 m addr size ≡ asan_poison_range m addr size 0xF5)
      × (asan_set_shadow_f8 m addr size ≡ asan_poison_range m addr size 0xF8)
      × (asan_set_shadow_00 m addr size ≡ asan_unpoison_range m addr size)
  unfolding asan_set_shadow_00 asan_set_shadow_f1 asan_set_shadow_f2 asan_set_shadow_f3
      asan_set_shadow_f5 asan_set_shadow_f8
  asan_set_shadow-poison_range = (
    set_shadow-poison 0xF1,
    set_shadow-poison 0xF2,
    set_shadow-poison 0xF3,
    set_shadow-poison 0xF5,
    set_shadow-poison 0xF8,
    set_shadow-unpoison,
  )
