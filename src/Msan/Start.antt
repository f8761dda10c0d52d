-- ===== src/Msan/Start.antt =====
-- src/msan/msan_rtl.c, `__msan_init`.
use misan.Prelude.{◌^◌, Bool, true, if◌then◌else◌}
use misan.Common.Mapping.{Mmap, drt_arch_map_shadow_memory}
use misan.Msan.{Msan, msan_shadow_base, msan_origin_base}

-- `msan_initialized` and the rest of the state. Whether the mappings succeed is not looked at.
unfoldable pub msan_init : Mmap → Bool × Msan → Bool × Msan
unfolding drt_arch_map_shadow_memory
msan_init mmap (initialized, s) =
    if initialized
    then (initialized, s)
    else (let with_shadow =
          (drt_arch_map_shadow_memory mmap msan_shadow_base (2 ^ 47) s.memory).1 in
        let with_origins =
          (drt_arch_map_shadow_memory mmap msan_origin_base (2 ^ 47) with_shadow).1 in
        (true, record s { memory = with_origins }))
