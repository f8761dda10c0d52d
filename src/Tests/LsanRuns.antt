-- ===== src/Tests/LsanRuns.antt =====
-- LeakSanitizer: small tables.
use misan.Prelude.{
  returns, [], ◌⊎◌, false, ◌==◌, ◌∷◌, List, arith, if◌then◌else◌, true, ◌≡◌, ℕ, refl, ◌↔◌, inl, inr,
  All, Any, done,
}
use misan.Tests.{Machine, idle}
use misan.Common.Number.{drt_putn, fill_digits, pad_loop, put_down}
use misan.Common.Platform.{Machine, drt_print_stack_trace}
use misan.Common.Printf.{drt_printf, drt_vprintf, format_rounds, format_step, convert}
use misan.Lsan.{Alloc, active, Lsan}
use misan.Lsan.Check.{lsan_mark_reachable, report_leak, lsan_do_check_internal, lsan_do_leak_check}
use misan.Lsan.Tables.{
  IsValid, Call, register_alloc, unregister_alloc, register_root, perform_all, perform_all-IsValid,
}
use misan.Lsan.Live.{view, steps, view-perform_all}
use misan.Lsan.Reachable.{AreBlocks, ReachedFromRoot, ReachedFromAlloc, lsan_mark_reachable_iff}
use misan.Lsan.Leaks.Counted.{IsLeak, Counts, lsan_do_check_internal-Counts}
use misan.Lsan.Leaks.{lsan_do_leak_check-cycle}

abbrev empty : Lsan
empty = record { allocs = []; roots = []; disabled = false; locked = false }

empty-IsValid : IsValid empty
empty-IsValid = record { unlocked = refl; allocs_fit = omega arith; roots_fit = omega arith }

abbrev calls : List Call
calls = register_alloc 4096 16 ∷ register_root 8192 64 ∷ unregister_alloc 4096 ∷ []

perform_all-IsValid_example : (s' : Lsan) × (perform_all idle calls empty ≡ done [] s') × IsValid s'
perform_all-IsValid_example = perform_all-IsValid idle calls empty empty-IsValid

view-perform_all_example :
    (s' : Lsan) × (perform_all idle calls empty ≡ done [] s') × (view s' ≡ steps calls (view empty))
view-perform_all_example = view-perform_all idle calls empty empty-IsValid (omega arith)

abbrev block_of : ℕ → ℕ → Alloc
block_of p size = record {
  addr = p;
  size = size;
  state = active;
  ignored = false;
  stack = [];
  timestamp = 77;
}

-- Two blocks that hold each other's address.
abbrev ring : Lsan
ring = record empty { allocs = block_of 4096 16 ∷ block_of 8192 16 ∷ [] }

abbrev ring_word : ℕ → ℕ
ring_word x = if x == 4104 then 8192 else if x == 8192 then 4096 else 0

abbrev ring_machine : Machine
ring_machine = record idle { word_at = ring_word }

ring-AreBlocks : AreBlocks ring
ring-AreBlocks = (tt, (omega arith, (omega arith, tt)))

lsan_mark_reachable_iff_example : (lsan_mark_reachable ring_word ring (block_of 8192 16) ≡ true) ↔ (
    Any (ReachedFromRoot ring_word 8192) ring.roots
    ⊎ Any (ReachedFromAlloc ring_word 8192) ring.allocs)
lsan_mark_reachable_iff_example =
    lsan_mark_reachable_iff ring_word ring (block_of 8192 16) ring-AreBlocks

lsan_do_leak_check-cycle_example : lsan_do_leak_check 9 ring_machine ring ≡ done [] (0, ring)
lsan_do_leak_check-cycle_example =
    lsan_do_leak_check-cycle 9 ring_machine ring refl ring-AreBlocks
      (inr (inl (refl, (0, omega arith, refl))), (inl (refl, (1, omega arith, refl)), tt))

-- A block that nothing points to, at an address of 16 hexadecimal digits.
abbrev lost : Lsan
lost = record empty { allocs = block_of 0x1000000000000000 16 ∷ [] }

lost-ends :
    All (λ a. IsLeak idle.word_at lost a → returns (report_leak 40 idle a) ≡ true) lost.allocs
unfolding report_leak drt_printf drt_vprintf format_rounds format_step convert drt_print_stack_trace
    drt_putn fill_digits pad_loop put_down
lost-ends = (λ h. refl, tt)

lsan_do_check_internal-Counts_example :
    (o : List ℕ) × (n : ℕ) × (lsan_do_check_internal 40 idle lost false ≡ done o (n, lost))
    × Counts (IsLeak idle.word_at lost) lost.allocs n
lsan_do_check_internal-Counts_example =
    lsan_do_check_internal-Counts 40 idle lost (tt, (omega arith, tt)) false refl lost-ends
      (inl refl)
