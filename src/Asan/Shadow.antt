-- ===== src/Asan/Shadow.antt =====
-- src/asan/asan_rtl.c, the shadow memory: one shadow byte for each grain of 8 bytes.
pub mod Ranges
use misan.Prelude.{
  ℕ, zero, suc, ◌+◌, ◌-◌, ◌*◌, ◌^◌, Bool, ◌==◌, if◌then◌else◌, u8, u64, sub64, bit_and, bit_not,
  update, ◌>>>◌, not,
}
pub use misan.Common.Bytes.{Memory}

abbrev pub asan_shadow_base : ℕ
asan_shadow_base = 0xFFFF800000000000

abbrev pub asan_shadow_mask : ℕ
asan_shadow_mask = 7

abbrev pub asan_shadow_poisoned : ℕ
asan_shadow_poisoned = 0xFF

unfoldable pub asan_mem_to_shadow : ℕ → ℕ
asan_mem_to_shadow addr = u64 (asan_shadow_base + addr >>> 3)

unfoldable pub asan_shadow_to_mem : ℕ → ℕ
asan_shadow_to_mem shadow = u64 (sub64 shadow asan_shadow_base * 2 ^ 3)

unfoldable pub asan_shadow_get : Memory → ℕ → ℕ
unfolding asan_mem_to_shadow
asan_shadow_get m addr = m (asan_mem_to_shadow addr)

unfoldable asan_shadow_set : Memory → ℕ → ℕ → Memory
unfolding asan_mem_to_shadow
asan_shadow_set m addr val = update m (asan_mem_to_shadow addr) (u8 val)

-- `for (s = from; s < to; s++) *s = val;` with `to - from` rounds left.
unfoldable pub fill : ℕ → Memory → ℕ → ℕ → Memory
fill zero m s val = m
fill (suc rounds) m s val = fill rounds (update m s val) (s + 1) val

unfoldable pub asan_poison_range : Memory → ℕ → ℕ → ℕ → Memory
asan_poison_range m beg size val =
    if size == 0
    then m
    else (let end = u64 (beg + size) in
        let shadow_beg = asan_mem_to_shadow beg in
        let shadow_end = u64 (asan_mem_to_shadow (sub64 end 1) + 1) in
        let filled = fill (shadow_end - shadow_beg) m shadow_beg val in
        let grain_beg = bit_and beg (bit_not asan_shadow_mask) in
        if grain_beg == beg
        then filled
        else update filled (asan_mem_to_shadow grain_beg) (u8 (bit_and (sub64 beg grain_beg) 0x7)))

unfoldable pub asan_unpoison_range : Memory → ℕ → ℕ → Memory
asan_unpoison_range m beg size =
    if size == 0
    then m
    else (let end = u64 (beg + size) in
        let shadow_beg = asan_mem_to_shadow beg in
        let shadow_end = u64 (asan_mem_to_shadow (sub64 end 1) + 1) in
        fill (shadow_end - shadow_beg) m shadow_beg 0)

unfoldable pub asan_poison_memory_region : Memory → ℕ → ℕ → Memory
asan_poison_memory_region m addr size = asan_poison_range m addr size asan_shadow_poisoned

unfoldable pub asan_unpoison_memory_region : Memory → ℕ → ℕ → Memory
asan_unpoison_memory_region m addr size = asan_unpoison_range m addr size

unfoldable pub asan_address_is_poisoned : Memory → ℕ → Bool
unfolding asan_shadow_get
asan_address_is_poisoned m addr = not (asan_shadow_get m addr == 0)

-- `for (i = 0; i < size >> 3; ++i) shadow[i] = val;` with the rounds left, at the index `i`.
unfoldable pub set_bytes : ℕ → Memory → ℕ → ℕ → ℕ → Memory
set_bytes zero m shadow i val = m
set_bytes (suc rounds) m shadow i val =
    set_bytes rounds (update m (u64 (shadow + i)) val) shadow (i + 1) val

unfoldable pub misan_set_shadow : Memory → ℕ → ℕ → ℕ → Memory
unfolding set_bytes
misan_set_shadow m addr size val =
    set_bytes (size >>> 3) m (u64 (addr >>> 3 + asan_shadow_base)) 0 val
