-- ===== src/Asan/Globals.antt =====
-- src/asan/asan_rtl.c, the registration of global variables with their redzones.
pub mod Guarded
pub mod Released
use misan.Prelude.{
  ℕ, zero, suc, ◌+◌, ◌-◌, ◌*◌, ◌/◌, ◌%◌, ◌^◌, Bool, true, false, List, [], ◌∷◌, u64, sub64,
  if◌then◌else◌,
}
use misan.Common.Mapping.{Mmap}
use misan.Asan.Access.{Runtime}
use misan.Asan.Start.{asan_init}
use misan.Asan.Shadow.{Memory, asan_poison_range, asan_unpoison_range, asan_shadow_poisoned}

abbrev pub asan_shadow_global_redzone : ℕ
asan_shadow_global_redzone = 0xF9

-- `__asan_global`, the fields that the runtime reads.
pub record AsanGlobal : Type 0 where
  pub beg : ℕ
  pub size : ℕ
  pub size_with_redzone : ℕ

-- The body of the loop of `__asan_register_globals`.
unfoldable pub register_global : Memory → AsanGlobal → Memory
register_global m g =
    asan_poison_range (asan_unpoison_range m g.beg g.size) (u64 (g.beg + g.size))
      (sub64 g.size_with_redzone g.size) asan_shadow_global_redzone

-- The loop of `__asan_register_globals`.
unfoldable pub register_each : Memory → List AsanGlobal → Memory
register_each m [] = m
register_each m (g ∷ gs) = register_each (register_global m g) gs

unfoldable pub asan_register_globals : Mmap → Runtime → List AsanGlobal → Runtime
asan_register_globals mmap r gs =
    let r' : Runtime = (if r.initialized then r else asan_init mmap r) in
    record r' { memory = register_each r'.memory gs }

unfoldable pub asan_unregister_globals : Memory → List AsanGlobal → Memory
asan_unregister_globals m [] = m
asan_unregister_globals m (g ∷ gs) =
    asan_unregister_globals (asan_poison_range m g.beg g.size_with_redzone asan_shadow_poisoned) gs
