-- ===== src/Common/Mapping.antt =====
-- src/common/san_pal.c, `drt_arch_map_shadow_memory`. The system call `mmap` is a parameter.
pub mod Zeroed
use misan.Prelude.{
  ℕ, ◌+◌, ◌<◌, ◌≤◌, ◌≡◌, ◌⊎◌, Bool, true, false, Option, none, some, ◌==◌, if◌then◌else◌, sub64,
}
pub use misan.Common.Bytes.{Memory}

-- An anonymous mapping at an address, of a length, with MAP_FIXED_NOREPLACE or else MAP_FIXED:
-- `none` stands for MAP_FAILED. The address that the call returns is not read otherwise.
abbrev pub Mmap : Type 0
Mmap = Bool → ℕ → ℕ → Memory → Option Memory

-- What is documented of it: the bytes that it maps read 0, and no others change.
pub record IsMmap (mmap : Mmap) : Type 0 where
  pub zeroed :
      (no_replace : Bool) (addr size : ℕ) (m m' : Memory)
      → mmap no_replace addr size m ≡ some m'
      → (x : ℕ) → addr ≤ x
      → x < addr + size
      → m' x ≡ 0
  pub others :
      (no_replace : Bool) (addr size : ℕ) (m m' : Memory)
      → mmap no_replace addr size m ≡ some m'
      → (x : ℕ) → (x < addr) ⊎ (addr + size ≤ x)
      → m' x ≡ m x

-- Whether 0 is returned, and the memory.
unfoldable pub drt_arch_map_shadow_memory : Mmap → ℕ → ℕ → Memory → Bool × Memory
drt_arch_map_shadow_memory mmap addr size m =
    let addr' = (if addr == 0 then 0x7fff8000 else addr) in
    let size' = (if size == 0 then sub64 0x100000000000 addr' else size) in
    elim (mmap true addr' size' m) [
      | some m' ↦ (true, m')
      | none ↦ elim (mmap false addr' size' m) [ some m' ↦ (true, m') | none ↦ (false, m) ]
    ]
