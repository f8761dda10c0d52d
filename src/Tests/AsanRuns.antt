-- ===== src/Tests/AsanRuns.antt =====
-- AddressSanitizer: a poisoned block.
use misan.Prelude.{arith, returns, true, false, ◌≡◌, ◌↔◌, ◌⊎◌}
use misan.Tests.{idle}
use misan.Asan.Shadow.{Memory, asan_poison_memory_region}
use misan.Asan.Access.{Runtime, asan_check_access}
use misan.Asan.Access.Checked.{IsAddressable, asan_check_access_iff}

abbrev clean : Memory
clean x = 0

abbrev started : Memory → Runtime
started m = record { initialized = true; locked = false; memory = m }

-- The 20 bytes from 4101 on, poisoned.
abbrev poisoned_block : Memory
poisoned_block = asan_poison_memory_region clean 4101 20

asan_check_access_iff_example :
    (returns (asan_check_access 9 idle (started poisoned_block) 4099 2 false) ≡ true) ↔ (
      ((started poisoned_block).initialized ≡ false)
      ⊎ IsAddressable (started poisoned_block).memory 4099 2)
asan_check_access_iff_example =
    asan_check_access_iff 9 idle (started poisoned_block) 4099 2 false (omega arith) (omega arith)
