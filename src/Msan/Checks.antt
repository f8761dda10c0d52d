-- ===== src/Msan/Checks.antt =====
-- Which reads the check lets through, and the ids of origins.
use misan.Prelude.{
  ℕ, zero, suc, ◌+◌, ◌-◌, ◌<◌, ◌≡◌, Bool, true, false, ◌==◌, ◌&&◌, leb, if◌then◌else◌, u64, [],
  done, returns, returns->>=, abort, arith, refl,
}
use misan.Common.Platform.{Machine}
use misan.Msan.{
  Msan, msan_shadow_ptr, msan_alloc_origin, copy_stack, msan_chain_origin, msan_report_uninit,
  check_bytes, msan_check_mem_is_initialized, msan_max_origins,
}

-- The shadow bytes of the `n` bytes from `addr + i` on are 0.
unfoldable pub are_initialized : ℕ → ℕ → (ℕ → ℕ) → ℕ → Bool
are_initialized zero i m addr = true
are_initialized (suc n) i m addr =
    m (u64 (msan_shadow_ptr addr + i)) == 0 && are_initialized n (i + 1) m addr

module _ (fuel : ℕ) (machine : Machine) where
  check_bytes_lem :
      (rounds i : ℕ) (s : Msan) (addr size : ℕ)
      → returns (check_bytes fuel machine rounds i s addr size)
        ≡ are_initialized rounds i s.memory addr
  unfolding check_bytes are_initialized
  check_bytes_lem zero i s addr size = refl
  check_bytes_lem (suc rounds) i s addr size = ground (
    arith,
    check_bytes_lem rounds (i + 1) s addr size,
    returns->>= {B = Unit {0}} (msan_report_uninit fuel machine s (u64 (addr + i)) (size - i))
        (λ _. abort) (λ _. refl),
  )

  -- At an address that is not null, `__msan_check_mem_is_initialized` returns exactly when the
  -- shadow bytes of all bytes from there on are 0.
  pub msan_check_lem :
      (s : Msan) (addr size : ℕ)
      → 0 < addr
      → returns (msan_check_mem_is_initialized fuel machine s addr size)
        ≡ are_initialized size 0 s.memory addr
  unfolding msan_check_mem_is_initialized are_initialized
  msan_check_lem s addr zero pos = ground arith
  msan_check_lem s addr (suc size) pos =
      ground (arith, check_bytes_lem (suc size) 0 s addr (suc size))

-- Every id that has been handed out is in the table.
abbrev pub IsCounted : Msan → Type 0
IsCounted s = (0 < s.origin_counter) × (s.origin_counter < msan_max_origins)

-- With the origin counter from 1 to 65535 and the lock free, chaining an origin from 1 to 65535
-- returns an id in the same range, gives the lock back, and leaves the counter in its range.
pub msan_chain_origin-IsCounted :
    (machine : Machine) (s : Msan) (origin : ℕ)
    → IsCounted s
    → s.locked ≡ false
    → 0 < origin
    → origin < msan_max_origins
    → (new_id : ℕ) × (s' : Msan) × (msan_chain_origin machine s origin ≡ done [] (new_id, s'))
      × (0 < new_id)
      × (new_id < msan_max_origins)
      × IsCounted s'
      × (s'.locked ≡ false)
unfolding msan_chain_origin msan_alloc_origin copy_stack
msan_chain_origin-IsCounted machine s origin counted free pos below = (
  if leb msan_max_origins (s.origin_counter + 1) then 1 else s.origin_counter + 1,
  record (copy_stack (msan_alloc_origin machine s).1 (msan_alloc_origin machine s).0 origin) {
    locked = false;
  },
  ground (arith, free),
  ground arith,
  ground arith,
  (ground arith, ground arith),
  refl,
)
