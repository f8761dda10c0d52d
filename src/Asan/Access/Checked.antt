-- ===== src/Asan/Access/Checked.antt =====
-- Which accesses `asan_check_access` lets through.
use misan.Asan.Shadow.Ranges.{asan_unpoison_range_lem, app_limit, asan_poison_range_lem}
use misan.Asan.Shadow.{
  asan_unpoison_range, asan_unpoison_memory_region, Memory, asan_shadow_get,
  asan_poison_memory_region,
}
use misan.Prelude.{
  ℕ, ◌+◌, ◌*◌, ◌/◌, ◌%◌, ◌^◌, Bool, true, false, if◌then◌else◌, ◌≡◌, ◌≤◌, ◌<◌, arith, refl,
  bit_and-not_seven, ◌↔◌, returns, returns->>=, ◌⊎◌, String, abort,
}
use misan.Common.Platform.{Machine}
use misan.Asan.Access.{Runtime, asan_report_text, asan_report_error, asan_check_access}

-- The grain of `addr` lets `size` bytes from `addr` on through.
abbrev pub IsAddressable : Memory → ℕ → ℕ → Type 0
IsAddressable m addr size =
    let shadow = asan_shadow_get m (addr / 8 * 8) in
    (shadow ≡ 0) ⊎ ((shadow < 8) × (addr % 8 + size ≤ shadow))

module _ (fuel : ℕ) (machine : Machine) where
  -- A report does not return.
  pub asan_report_error-returns :
      (r : Runtime) (kind : String) (addr size shadow_val : ℕ)
      → returns (asan_report_error fuel machine {A = Unit {0}} r kind addr size shadow_val) ≡ false
  unfolding asan_report_error
  asan_report_error-returns r kind addr size shadow_val =
      returns->>= (asan_report_text fuel machine r kind addr size shadow_val) (λ _. abort)
        (λ _. refl)

  -- At an address below 2^64, for at most 2^63 bytes, `asan_check_access` returns exactly when
  -- the runtime is not initialized, or the shadow byte of the access's first grain is 0, or that
  -- byte is below 8 and the access ends within as many bytes of the grain.
  pub asan_check_access_iff :
      (r : Runtime) (addr size : ℕ) (is_write : Bool)
      → addr < 2 ^ 64
      → size ≤ 2 ^ 63
      → (returns (asan_check_access fuel machine r addr size is_write) ≡ true)
        ↔ ((r.initialized ≡ false) ⊎ IsAddressable r.memory addr size)
  unfolding asan_check_access
  asan_check_access_iff r addr size is_write ha hs = ground (
    arith,
    bit_and-not_seven addr,
    asan_report_error-returns r (if is_write then "WRITE" else "READ") addr size
        (asan_shadow_get r.memory (addr / 8 * 8)),
  )

  module _ (r : Runtime) (beg size addr n : ℕ) (is_write : Bool) (on : r.initialized ≡ true)
      (fits : beg + size ≤ app_limit) (pos : 0 < size) (some_bytes : 0 < n)
      (n_le : n ≤ 2 ^ 63) where
    abbrev poisoned : Runtime
    poisoned = record r { memory = asan_poison_memory_region r.memory beg size }

    -- Once the runtime is initialized and a nonempty range that ends at or below 2^50 - 8 is
    -- poisoned, no access of 1 to 2^63 bytes that begins in the range returns.
    pub asan_check_access-poisoned :
        beg ≤ addr
        → addr < beg + size
        → returns (asan_check_access fuel machine poisoned addr n is_write) ≡ false
    unfolding asan_poison_memory_region
    asan_check_access-poisoned lo hi = ground (
      arith,
      asan_check_access_iff poisoned addr n is_write,
      asan_poison_range_lem r.memory beg size (addr / 8 * 8) fits (omega arith) 0xFF pos,
    )

    -- Once the runtime is initialized and a nonempty range that ends at or below 2^50 - 8 is
    -- poisoned, an access of 1 to 2^63 bytes that begins in the grain of the range's start and
    -- ends before it returns, whatever was poisoned before.
    pub asan_check_access-before :
        addr / 8 ≡ beg / 8
        → addr + n ≤ beg
        → returns (asan_check_access fuel machine poisoned addr n is_write) ≡ true
    unfolding asan_poison_memory_region
    asan_check_access-before same ends = ground (
      arith,
      asan_check_access_iff poisoned addr n is_write,
      asan_poison_range_lem r.memory beg size (addr / 8 * 8) fits (omega arith) 0xFF pos,
    )

    -- Once the runtime is initialized and a nonempty range that starts a grain and ends at or
    -- below 2^50 - 8 is poisoned, an access of at most 2^63 bytes that begins before the range in
    -- an addressable grain returns, however far it reaches into the range.
    pub asan_check_access-crossing :
        addr < beg
        → beg % 8 ≡ 0
        → asan_shadow_get r.memory (addr / 8 * 8) ≡ 0
        → beg < addr + n
        → returns (asan_check_access fuel machine poisoned addr n is_write) ≡ true
    unfolding asan_poison_memory_region
    asan_check_access-crossing lt aligned clean reaches = ground (
      arith,
      asan_check_access_iff poisoned addr n is_write,
      asan_poison_range_lem r.memory beg size (addr / 8 * 8) fits (omega arith) 0xFF pos,
    )

    -- Once the runtime is initialized and a nonempty range that ends at or below 2^50 - 8 is
    -- unpoisoned, every access of 1 to 2^63 bytes that begins in the range returns.
    pub asan_check_access-unpoisoned :
        beg ≤ addr
        → addr < beg + size
        → returns (
            asan_check_access fuel machine
              (record r { memory = asan_unpoison_memory_region r.memory beg size })
              addr
              n
              is_write)
          ≡ true
    unfolding asan_unpoison_memory_region
    asan_check_access-unpoisoned lo hi = ground (
      arith,
      asan_check_access_iff (record r { memory = asan_unpoison_range r.memory beg size }) addr n
          is_write,
      asan_unpoison_range_lem r.memory beg size (addr / 8 * 8) fits (omega arith) pos,
    )
