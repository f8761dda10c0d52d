-- ===== src/Asan/Shadow/Ranges.antt =====
-- What poisoning and unpoisoning a range does to the shadow of every address.
use misan.Prelude.{
  ℕ, zero, suc, ◌+◌, ◌-◌, ◌*◌, ◌/◌, ◌%◌, ◌^◌, ◌&&◌, ltb, leb, ◌==◌, if◌then◌else◌, update, not, ◌≡◌,
  ◌≤◌, ◌<◌, arith, refl, bit_and-not_seven, bit_and_seven, ◌↔◌,
}
use misan.Asan.Shadow.{
  Memory, asan_shadow_base, asan_mem_to_shadow, asan_shadow_to_mem, asan_shadow_get, fill,
  asan_poison_range, asan_unpoison_range,
}

-- Below this address the shadow address does not wrap.
abbrev pub app_limit : ℕ
app_limit = 2 ^ 50 - 8

-- The start of an address's grain comes back from its shadow address, at every 64-bit address.
pub asan_shadow_to_mem-asan_mem_to_shadow :
    (addr : ℕ) → addr < 2 ^ 64 → asan_shadow_to_mem (asan_mem_to_shadow addr) ≡ addr / 8 * 8
unfolding asan_shadow_to_mem asan_mem_to_shadow
asan_shadow_to_mem-asan_mem_to_shadow addr h = omega arith

-- Two 64-bit addresses have one shadow byte exactly when they lie in one grain.
pub asan_mem_to_shadow-eq_iff :
    (a b : ℕ)
    → a < 2 ^ 64
    → b < 2 ^ 64
    → (asan_mem_to_shadow a ≡ asan_mem_to_shadow b) ↔ (a / 8 ≡ b / 8)
unfolding asan_mem_to_shadow
asan_mem_to_shadow-eq_iff a b ha hb = (λ e. omega arith, λ e. omega arith)

pub asan_mem_to_shadow_lem : (a : ℕ) → a < 2 ^ 50 → asan_mem_to_shadow a ≡ asan_shadow_base + a / 8
unfolding asan_mem_to_shadow
asan_mem_to_shadow_lem a h = omega arith

pub fill_lem :
    (rounds : ℕ) (m : Memory) (s val x : ℕ)
    → fill rounds m s val x ≡ (if leb s x && ltb x (s + rounds) then val else m x)
unfolding fill
fill_lem zero m s val x = ground arith
fill_lem (suc rounds) m s val x =
    ground (arith, fill_lem rounds (update m s val) (s + 1) val x, update-if m s val x)
  where
    update-if : (m : Memory) (s val x : ℕ) → update m s val x ≡ (if x == s then val else m x)
    update-if m s val x = unfold update in refl

-- The shadow byte that poisoning `size` bytes from `beg` on leaves at `x`.
abbrev pub poisoned_byte : ℕ → ℕ → ℕ → ℕ → ℕ → ℕ
poisoned_byte beg size val old x =
    if leb (beg / 8) (x / 8) && leb (x / 8) ((beg + size - 1) / 8)
    then (if x / 8 == beg / 8 && not (beg % 8 == 0) then beg % 8 else val)
    else old

pub asan_poison_range-zero : (m : Memory) (beg val : ℕ) → asan_poison_range m beg 0 val ≡ m
unfolding asan_poison_range
asan_poison_range-zero m beg val = refl

module _ (m : Memory) (beg size x : ℕ) (fits : beg + size ≤ app_limit) (low : x < app_limit) where
  -- Poisoning a nonempty range that ends at or below 2^50 - 8 changes, of the addresses below
  -- that, exactly those whose grain meets the range: they read the value, but in the first grain,
  -- if the range starts inside it, the number of the bytes before the range.
  pub asan_poison_range_lem :
      (val : ℕ)
      → 0 < size
      → asan_shadow_get (asan_poison_range m beg size val) x
        ≡ poisoned_byte beg size val (asan_shadow_get m x) x
  unfolding asan_shadow_get asan_poison_range update
  asan_poison_range_lem val pos = ground (
    arith,
    asan_mem_to_shadow_lem x,
    asan_mem_to_shadow_lem beg,
    asan_mem_to_shadow_lem (beg + size - 1),
    asan_mem_to_shadow_lem (beg / 8 * 8),
    bit_and-not_seven beg,
    bit_and_seven (beg % 8),
    fill_lem ((beg + size - 1) / 8 + 1 - beg / 8) m (asan_shadow_base + beg / 8) val
        (asan_shadow_base + x / 8),
  )

  -- Unpoisoning a nonempty range that ends at or below 2^50 - 8 sets, of the addresses below
  -- that, exactly those whose grain meets the range to 0.
  pub asan_unpoison_range_lem :
      0 < size
      → asan_shadow_get (asan_unpoison_range m beg size) x ≡ (
          if leb (beg / 8) (x / 8) && leb (x / 8) ((beg + size - 1) / 8)
          then 0
          else asan_shadow_get m x)
  unfolding asan_shadow_get asan_unpoison_range
  asan_unpoison_range_lem pos = ground (
    arith,
    asan_mem_to_shadow_lem x,
    asan_mem_to_shadow_lem beg,
    asan_mem_to_shadow_lem (beg + size - 1),
    fill_lem ((beg + size - 1) / 8 + 1 - beg / 8) m (asan_shadow_base + beg / 8) 0
        (asan_shadow_base + x / 8),
  )
