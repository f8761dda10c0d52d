-- ===== src/Tsan/Atomic.antt =====
-- src/tsan/tsan_rtl.c, the atomic operations, with the number of bytes as an argument. Values are
-- their bits; memory is the program's.
pub mod Values
use misan.Prelude.{
  ℕ, zero, suc, ◌+◌, ◌*◌, ◌/◌, ◌%◌, Bool, true, false, u64, update, Exec, ◌>>=◌, pure,
}
use misan.Common.Bytes.{Memory}
use misan.Common.Platform.{Machine}
use misan.Tsan.Runtime.{Tsan, tsan_access}

-- `*(volatile intN_t *)addr`, lowest byte first.
unfoldable pub load_bytes : ℕ → Memory → ℕ → ℕ
load_bytes zero m addr = 0
load_bytes (suc n) m addr = m addr + 256 * load_bytes n m (u64 (addr + 1))

unfoldable pub store_bytes : ℕ → Memory → ℕ → ℕ → Memory
store_bytes zero m addr val = m
store_bytes (suc n) m addr val =
    store_bytes n (update m addr (val % 256)) (u64 (addr + 1)) (val / 256)

module _ (fuel : ℕ) (machine : Machine) (self bytes : ℕ) where
  unfoldable pub tsan_atomic_load : Tsan → Memory → ℕ → Exec (ℕ × Tsan)
  tsan_atomic_load s m addr =
      tsan_access fuel machine self s addr false >>= λ s'. pure (load_bytes bytes m addr, s')

  unfoldable pub tsan_atomic_store : Tsan → Memory → ℕ → ℕ → Exec (Memory × Tsan)
  tsan_atomic_store s m addr val =
      tsan_access fuel machine self s addr true >>= λ s'. pure (store_bytes bytes m addr val, s')

-- `__tsan_vptr_read` and `__tsan_vptr_update`.
module _ (fuel : ℕ) (machine : Machine) (self : ℕ) where
  unfoldable pub tsan_vptr_read : Tsan → ℕ → Exec Tsan
  tsan_vptr_read s addr = tsan_access fuel machine self s addr false

  unfoldable pub tsan_vptr_update : Tsan → ℕ → Exec Tsan
  tsan_vptr_update s addr = tsan_access fuel machine self s addr true
