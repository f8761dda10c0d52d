-- ===== src/Tests/MsanRuns.antt =====
-- MemorySanitizer: a poisoned block, and an origin that is chained.
use misan.Prelude.{false, List, ◌∷◌, ◌≡◌, true, false, [], returns, arith, ◌+◌, ◌^◌, refl}
use misan.Msan.{msan_shadow_base, msan_unpoison, Msan, msan_poison, msan_check_mem_is_initialized}
use misan.Msan.Unpoisoned.{msan_unpoison-overlaps}
use misan.Tests.{idle, always, always-IsMmap}
use misan.Common.Mapping.{drt_arch_map_shadow_memory}
use misan.Msan.Start.{msan_init}
use misan.Msan.History
use misan.Msan.History.{poison, unpoison, set_origin, msan_check-are_clear}

abbrev fresh : Msan
fresh = record {
  memory = λ a. 0;
  origins = λ i. record { id = 0; stack = []; timestamp = 0; active = false };
  origin_counter = 1;
  track_origins = true;
  locked = false;
}

mapped : (drt_arch_map_shadow_memory always msan_shadow_base (2 ^ 47) (λ x. 0x55)).0 ≡ true
unfolding drt_arch_map_shadow_memory
mapped = refl

-- A block is poisoned, its origin set, and its first half written.
abbrev half_written : List History.Call
half_written = poison 4096 32 ∷ set_origin 4096 32 7 ∷ unpoison 4096 16 ∷ []

abbrev dirty : Msan
dirty = record fresh { memory = λ x. 0x55 }

msan_check-are_clear_example :
    returns (
      msan_check_mem_is_initialized 9 idle
        (History.perform_all half_written (msan_init always (false, dirty)).1)
        4100
        8)
    ≡ History.are_clear half_written 8 4100
msan_check-are_clear_example =
    msan_check-are_clear 9 idle always dirty half_written 4100 8 always-IsMmap mapped
      ((omega arith, omega arith), ((omega arith, omega arith), ((omega arith, omega arith), tt)))
      (omega arith) (omega arith)

abbrev poisoned : Msan
poisoned = msan_poison fresh 4096 64

poisoned-track : poisoned.track_origins ≡ true
unfolding msan_poison
poisoned-track = refl

-- Unpoisoning one byte far away lets a read of the poisoned block go on.
msan_unpoison-overlaps_example :
    returns (msan_check_mem_is_initialized 9 idle (msan_unpoison poisoned (2 ^ 42 + 1025) 1) 4100 1)
    ≡ true
msan_unpoison-overlaps_example =
    msan_unpoison-overlaps poisoned (2 ^ 42 + 1025) 1 4100 9 idle poisoned-track (omega arith)
      (omega arith) (omega arith) (omega arith) (omega arith) (omega arith) (omega arith)
