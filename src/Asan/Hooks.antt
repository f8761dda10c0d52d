-- ===== src/Asan/Hooks.antt =====
-- src/asan/asan_hooks.c, the memory hooks and the hooks without effect, and those of
-- src/asan/asan_rtl.c that set the shadow or have no effect.
pub mod Setting
use misan.Prelude.{ℕ}
use misan.Asan.Access.{Runtime}
use misan.Asan.Shadow.{misan_set_shadow}
use misan.Common.Bytes.{Memory, drt_memcpy, drt_memset}

-- The memory, and the pointer that is returned.
unfoldable pub asan_memcpy : Memory → ℕ → ℕ → ℕ → Memory × ℕ
unfolding drt_memcpy
asan_memcpy m dest src n = (drt_memcpy m dest src n, dest)

unfoldable pub asan_memset : Memory → ℕ → ℕ → ℕ → Memory × ℕ
unfolding drt_memset
asan_memset m s c n = (drt_memset m s c n, s)

abbrev pub asan_option_detect_stack_use_after_return : ℕ
asan_option_detect_stack_use_after_return = 0

unfoldable asan_register_elf_globals : Runtime → ℕ → ℕ → ℕ → Runtime
asan_register_elf_globals r flag start end = r

unfoldable asan_unregister_elf_globals : Runtime → ℕ → ℕ → ℕ → Runtime
asan_unregister_elf_globals r flag start end = r

-- `__asan_stack_malloc_0` to `__asan_stack_malloc_10` return a null pointer.
unfoldable asan_stack_malloc : ℕ → ℕ → ℕ → ℕ
asan_stack_malloc class size addr = 0

-- `__asan_stack_free_0` to `__asan_stack_free_10`.
unfoldable asan_stack_free : ℕ → Runtime → ℕ → ℕ → ℕ → Runtime
asan_stack_free class r ptr size addr = r

unfoldable asan_version_mismatch_check_v8 : Runtime → Runtime
asan_version_mismatch_check_v8 r = r

unfoldable asan_before_dynamic_init : Runtime → ℕ → Runtime
asan_before_dynamic_init r module_name = r

unfoldable asan_after_dynamic_init : Runtime → Runtime
asan_after_dynamic_init r = r

unfoldable pub asan_set_shadow_00 : Memory → ℕ → ℕ → Memory
asan_set_shadow_00 m addr size = misan_set_shadow m addr size 0x00

unfoldable pub asan_set_shadow_f1 : Memory → ℕ → ℕ → Memory
asan_set_shadow_f1 m addr size = misan_set_shadow m addr size 0xf1

unfoldable pub asan_set_shadow_f2 : Memory → ℕ → ℕ → Memory
asan_set_shadow_f2 m addr size = misan_set_shadow m addr size 0xf2

unfoldable pub asan_set_shadow_f3 : Memory → ℕ → ℕ → Memory
asan_set_shadow_f3 m addr size = misan_set_shadow m addr size 0xf3

unfoldable pub asan_set_shadow_f5 : Memory → ℕ → ℕ → Memory
asan_set_shadow_f5 m addr size = misan_set_shadow m addr size 0xf5

unfoldable pub asan_set_shadow_f8 : Memory → ℕ → ℕ → Memory
asan_set_shadow_f8 m addr size = misan_set_shadow m addr size 0xf8
