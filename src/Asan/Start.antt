-- ===== src/Asan/Start.antt =====
-- src/asan/asan_rtl.c, `__asan_init`.
pub mod Mapped
use misan.Prelude.{ℕ, ◌^◌, Bool, true, false, if◌then◌else◌}
use misan.Common.Mapping.{Mmap, drt_arch_map_shadow_memory}
use misan.Asan.Shadow.{asan_shadow_base}
use misan.Asan.Access.{Runtime}

-- The exchange sets `asan_initialized` before the shadow is mapped; whether that succeeds is not
-- looked at.
unfoldable pub asan_init : Mmap → Runtime → Runtime
unfolding drt_arch_map_shadow_memory
asan_init mmap r = if r.initialized then r else record r {
  initialized = true;
  memory = (drt_arch_map_shadow_memory mmap asan_shadow_base (2 ^ 47) r.memory).1;
}
