-- ===== src/Common/Platform.antt =====
-- src/common/san_pal.c, the stack trace, with its printing in src/common/san_printf.c, and the spin
-- lock of include/sanitizer/common.h as one thread meets it.
pub mod Frames
pub mod Traces
use misan.Prelude.{
  ℕ, zero, suc, ◌+◌, ◌-◌, Bool, true, false, ◌||◌, List, [], ◌∷◌, leb, ◌==◌, if◌then◌else◌, u64,
  literal, Exec, spinning, ◌>>◌, pure,
}
use misan.Common.Number.{drt_puts}
use misan.Common.Printf.{word, drt_printf}

-- What the runtimes read of the machine: the frame pointer, the 8-byte words of memory, and the
-- time stamp counter.
pub record Machine : Type 0 where
  pub rbp : ℕ
  pub word_at : ℕ → ℕ
  pub tsc : ℕ

abbrev pub max_stack_frames : ℕ
max_stack_frames = 32

-- The return addresses, `pcs[0 .. count)`.
abbrev pub StackTrace : Type 0
StackTrace = List ℕ

-- The loop of `drt_arch_capture_stack_trace` with `count` addresses taken; the addresses taken from
-- there on.
unfoldable pub walk_frames : ℕ → (ℕ → ℕ) → ℕ → ℕ → ℕ → StackTrace
walk_frames zero memory rbp skip count = []
walk_frames (suc rounds) memory rbp skip count = elim (rbp == 0 || leb max_stack_frames count) [
  | true ↦ []
  | false ↦ elim (skip == 0) [
    | true ↦ memory (u64 (rbp + 8)) ∷ walk_frames rounds memory (memory rbp) 0 (count + 1)
    | false ↦ walk_frames rounds memory (memory rbp) (skip - 1) count
  ]
]

-- Each round uses up one of `skip` or one of the 32 slots, and the test takes one more.
unfoldable pub drt_arch_capture_stack_trace : Machine → ℕ → StackTrace
unfolding walk_frames
drt_arch_capture_stack_trace m skip =
    walk_frames (suc (skip + max_stack_frames)) m.word_at m.rbp skip 0

unfoldable pub drt_arch_get_time_ns : Machine → ℕ
drt_arch_get_time_ns m = m.tsc

module _ (fuel : ℕ) where
  unfoldable pub print_frames : ℕ → StackTrace → Exec (Unit {0})
  print_frames i [] = pure tt
  print_frames i (pc ∷ pcs) = do
    drt_printf fuel "  #%zu  0x%p\n" (word i ∷ word pc ∷ [])
    print_frames (i + 1) pcs

  unfoldable pub drt_print_stack_trace : StackTrace → Exec (Unit {0})
  unfolding print_frames
  drt_print_stack_trace st = drt_puts (literal "Stack trace:\n") >> print_frames 0 st

-- Taking a lock that is held, by the only thread that runs, spins for ever.
unfoldable pub drt_spin_lock : Bool → Exec Bool
drt_spin_lock held = if held then spinning [] else pure true

unfoldable pub drt_spin_unlock : Bool → Exec Bool
drt_spin_unlock held = pure false
