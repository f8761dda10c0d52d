-- ===== src/Tests/GlobalsRuns.antt =====
-- AddressSanitizer: the start and two globals.
use misan.Prelude.{not, ℕ, ◌^◌, true, false, List, [], ◌∷◌, ◌≡◌, inl, All, returns, arith, refl}
use misan.Tests.{idle, always, always-IsMmap}
use misan.Common.Mapping.{drt_arch_map_shadow_memory}
use misan.Asan.Shadow.{
  asan_shadow_base, asan_poison_range, asan_unpoison_range, asan_address_is_poisoned,
}
use misan.Asan.Access.{Runtime, asan_check_access}
use misan.Asan.Globals.{AsanGlobal, asan_register_globals, asan_unregister_globals}
use misan.Asan.Globals.Guarded.{
  IsLaidOut, AreApart, IsGuarded, asan_register_globals-IsGuarded, asan_check_access-redzone,
}
use misan.Asan.Globals.Released.{asan_unregister_globals_poisons}
use misan.Asan.Start.{asan_init}
use misan.Asan.History
use misan.Asan.History.{poison, unpoison, asan_check_access-is_poisoned}
use misan.Asan.Hooks.{
  asan_set_shadow_00, asan_set_shadow_f1, asan_set_shadow_f2, asan_set_shadow_f3,
  asan_set_shadow_f5, asan_set_shadow_f8,
}
use misan.Asan.Hooks.Setting.{asan_set_shadow-poison_range}

-- Memory full of 0x55, and nothing started.
abbrev idle_runtime : Runtime
idle_runtime = record { initialized = false; locked = false; memory = λ x. 0x55 }

mapped : (drt_arch_map_shadow_memory always asan_shadow_base (2 ^ 47) (λ x. 0x55)).0 ≡ true
unfolding drt_arch_map_shadow_memory
mapped = refl

-- A buffer of 32 bytes is poisoned and its second half given back.
abbrev half_poisoned : List History.Call
half_poisoned = poison 4096 32 ∷ unpoison 4112 16 ∷ []

abbrev half_poisoned_runtime : Runtime
half_poisoned_runtime = record (asan_init always idle_runtime) {
  memory = History.perform_all half_poisoned (asan_init always idle_runtime).memory;
}

asan_check_access-is_poisoned_example :
    (returns (asan_check_access 9 idle half_poisoned_runtime 4100 2 true)
      ≡ not (History.is_poisoned half_poisoned 4100 false))
    × (asan_address_is_poisoned half_poisoned_runtime.memory 4100
        ≡ History.is_poisoned half_poisoned 4100 false)
asan_check_access-is_poisoned_example =
    asan_check_access-is_poisoned 9 idle always idle_runtime half_poisoned 4100 2 true always-IsMmap
      refl mapped (((refl, refl, omega arith), ((refl, refl, omega arith), tt))) (omega arith)
      (omega arith) (omega arith)

-- The marks of a stack frame of 64 bytes.
asan_set_shadow-poison_range_example :
    (asan_set_shadow_f1 (λ x. 0x55) 4096 64 ≡ asan_poison_range (λ x. 0x55) 4096 64 0xF1)
    × (asan_set_shadow_f2 (λ x. 0x55) 4096 64 ≡ asan_poison_range (λ x. 0x55) 4096 64 0xF2)
    × (asan_set_shadow_f3 (λ x. 0x55) 4096 64 ≡ asan_poison_range (λ x. 0x55) 4096 64 0xF3)
    × (asan_set_shadow_f5 (λ x. 0x55) 4096 64 ≡ asan_poison_range (λ x. 0x55) 4096 64 0xF5)
    × (asan_set_shadow_f8 (λ x. 0x55) 4096 64 ≡ asan_poison_range (λ x. 0x55) 4096 64 0xF8)
    × (asan_set_shadow_00 (λ x. 0x55) 4096 64 ≡ asan_unpoison_range (λ x. 0x55) 4096 64)
asan_set_shadow-poison_range_example =
    asan_set_shadow-poison_range (λ x. 0x55) 4096 64 refl refl (omega arith)

abbrev global_of : ℕ → ℕ → AsanGlobal
global_of beg size = record { beg = beg; size = size; size_with_redzone = 64 }

abbrev two_globals : List AsanGlobal
two_globals = global_of 4096 20 ∷ global_of 4160 64 ∷ []

two_globals-AreLaidOut : All IsLaidOut two_globals
two_globals-AreLaidOut = (
  record {
    aligned = omega arith;
    whole = omega arith;
    nonempty = omega arith;
    roomy = omega arith;
    low = omega arith;
  },
  (
    record {
      aligned = omega arith;
      whole = omega arith;
      nonempty = omega arith;
      roomy = omega arith;
      low = omega arith;
    },
    tt,
  ),
)

two_globals-AreApart : AreApart two_globals
two_globals-AreApart = ((inl (omega arith), tt), (tt, tt))

asan_register_globals-IsGuarded_example :
    ((asan_register_globals always idle_runtime two_globals).initialized ≡ true)
    × All (IsGuarded (asan_register_globals always idle_runtime two_globals).memory) two_globals
asan_register_globals-IsGuarded_example =
    asan_register_globals-IsGuarded always idle_runtime two_globals two_globals-AreLaidOut
      two_globals-AreApart

abbrev registered : Runtime
registered = asan_register_globals always idle_runtime two_globals

registered-initialized : registered.initialized ≡ true
registered-initialized =
    (asan_register_globals-IsGuarded always idle_runtime two_globals two_globals-AreLaidOut
      two_globals-AreApart).0

two_globals-IsGuarded : IsGuarded registered.memory (global_of 4096 20)
two_globals-IsGuarded =
    (asan_register_globals-IsGuarded always idle_runtime two_globals two_globals-AreLaidOut
      two_globals-AreApart).1.0

asan_check_access-redzone_example :
    returns (asan_check_access 9 idle registered 4117 1 true) ≡ false
asan_check_access-redzone_example =
    asan_check_access-redzone 9 idle registered (global_of 4096 20) 4117 1 true
      two_globals-AreLaidOut.0 two_globals-IsGuarded (omega arith) registered-initialized
      (omega arith) (omega arith) (omega arith)

asan_unregister_globals_poisons_example :
    returns (
      asan_check_access 9 idle
        (record registered { memory = asan_unregister_globals registered.memory two_globals })
        4100
        4
        false)
    ≡ false
asan_unregister_globals_poisons_example =
    asan_unregister_globals_poisons 9 idle registered two_globals 4100 4 false
      two_globals-AreLaidOut (inl (omega arith, omega arith)) registered-initialized (omega arith)
      (omega arith) (omega arith)
