-- ===== src/Tests/CfiRuns.antt =====
-- The check of indirect calls with two vtables inserted.
use misan.Prelude.{ℕ, List, [], ◌∷◌, ◌≡◌, done, returns, arith}
use misan.Tests.{idle}
use misan.Common.Platform.{Machine}
use misan.Cfi.{Cfi, cfi_slowpath}
use misan.Cfi.Table.{insert_all, is_listed, empty_table, cfi_slowpath-insert_all}

-- The object at 8192 has the vtable 4096.
abbrev object_machine : Machine
object_machine = record idle { word_at = λ a. 4096 }

abbrev two_pairs : List (ℕ × ℕ)
two_pairs = (0xABCD, 4096) ∷ (0xABCE, 4096) ∷ []

cfi_slowpath-insert_all_example :
    (s : Cfi) × (insert_all 9 two_pairs empty_table ≡ done [] s)
    × ((call_site_type addr : ℕ)
        → returns (cfi_slowpath 9 object_machine s.table call_site_type addr)
          ≡ is_listed two_pairs call_site_type (object_machine.word_at addr))
cfi_slowpath-insert_all_example = cfi_slowpath-insert_all 9 object_machine two_pairs (omega arith)
