-- ===== src/Tsan/Table.antt =====
-- src/tsan/tsan_rtl.c, the loop that `tsan_shadow_get` and `tsan_mutex_find` share: open addressing
-- with linear probing, where `holds` gives the address of an active slot.
pub mod Probing
pub mod Stable
pub mod Findable
pub mod Room
use misan.Prelude.{
  ℕ, zero, suc, ◌+◌, ◌%◌, ◌/◌, Bool, true, false, Option, none, some, ◌==◌, if◌then◌else◌, u32,
  bit_xor, ◌>>>◌,
}

-- Where the loop ends: at the slot that has the address, at a free slot that it takes, or nowhere.
pub data Slot : Type 0 where
  found : ℕ → Slot
  claimed : ℕ → Slot
  nowhere : Slot

module _ (holds : ℕ → Option ℕ) (size : ℕ) (addr : ℕ) (alloc : Bool) where
  unfoldable pub probe : ℕ → ℕ → ℕ → Slot
  probe zero start idx = nowhere
  probe (suc rounds) start idx =
      let next : Slot = elim ((idx + 1) % size == start) [
        | true ↦ nowhere
        | false ↦ probe rounds start ((idx + 1) % size)
      ] in
      elim (holds idx) [
        | some a ↦ if a == addr then found idx else next
        | none ↦ if alloc then claimed idx else next
      ]

abbrev pub tsan_shadow_entries : ℕ
tsan_shadow_entries = 65536

abbrev pub tsan_max_mutexes : ℕ
tsan_max_mutexes = 1024

unfoldable pub tsan_shadow_hash : ℕ → ℕ
tsan_shadow_hash addr =
    let p = bit_xor addr (addr >>> 16) in
    let q = bit_xor p (p >>> 8) in u32 (q % tsan_shadow_entries)

-- The index at which `tsan_mutex_find` starts.
unfoldable pub tsan_mutex_index : ℕ → ℕ
tsan_mutex_index addr = u32 (addr / 8 % tsan_max_mutexes)
