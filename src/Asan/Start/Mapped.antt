-- ===== src/Asan/Start/Mapped.antt =====
-- What `__asan_init` makes addressable.
use misan.Prelude.{
  ℕ, ◌+◌, ◌/◌, ◌*◌, ◌^◌, ◌<◌, ◌≤◌, ◌≡◌, Bool, true, false, returns, arith, ap, ◌∙◌, inl, inr,
}
use misan.Common.Platform.{Machine}
use misan.Common.Mapping.Zeroed.{map_shadow-zero}
use misan.Common.Mapping.{Mmap, IsMmap, drt_arch_map_shadow_memory}
use misan.Asan.Shadow.{asan_shadow_base, asan_shadow_get}
use misan.Asan.Shadow.Ranges.{asan_mem_to_shadow_lem}
use misan.Asan.Access.{Runtime, asan_check_access}
use misan.Asan.Access.Checked.{asan_check_access_iff}
use misan.Asan.Start.{asan_init}

-- After a start with a mapping that succeeds, the shadow of every address below 2^50 is 0.
pub asan_init-zero :
    (mmap : Mmap) (r : Runtime) (addr : ℕ)
    → IsMmap mmap
    → r.initialized ≡ false
    → (drt_arch_map_shadow_memory mmap asan_shadow_base (2 ^ 47) r.memory).0 ≡ true
    → addr < 2 ^ 50
    → asan_shadow_get (asan_init mmap r).memory addr ≡ 0
unfolding asan_init asan_shadow_get
asan_init-zero mmap r addr law off ok low =
    ap (asan_init mmap r).memory (asan_mem_to_shadow_lem addr low)
    ∙ rw off (
        map_shadow-zero mmap asan_shadow_base (2 ^ 47) r.memory law (omega arith) (omega arith) ok
          (asan_shadow_base + addr / 8) (omega arith) (omega arith))

pub asan_init-addressable :
    (fuel : ℕ) (machine : Machine) (mmap : Mmap) (r : Runtime) (addr n : ℕ) (is_write : Bool)
    → IsMmap mmap
    → r.initialized ≡ false
    → (drt_arch_map_shadow_memory mmap asan_shadow_base (2 ^ 47) r.memory).0 ≡ true
    → addr < 2 ^ 50
    → n ≤ 2 ^ 63
    → returns (asan_check_access fuel machine (asan_init mmap r) addr n is_write) ≡ true
asan_init-addressable fuel machine mmap r addr n is_write law off ok low le =
    (asan_check_access_iff fuel machine (asan_init mmap r) addr n is_write (omega arith) le).1
      (inr (inl (asan_init-zero mmap r (addr / 8 * 8) law off ok (omega arith))))
