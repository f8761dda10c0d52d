-- ===== src/Asan/FakeStack.antt =====
-- src/asan/asan_rtl.c, the pool of fake stacks. `stacks_at` is the address of `asan_fake_stacks`.
pub mod Slots
use misan.Prelude.{
  ℕ, zero, suc, ◌+◌, ◌*◌, ◌^◌, Bool, true, false, Option, none, some, leb, if◌then◌else◌, u64,
  update,
}
use misan.Asan.Shadow.{Memory, asan_poison_range, asan_unpoison_range, asan_shadow_poisoned}

abbrev pub asan_fake_stack_size : ℕ
asan_fake_stack_size = 64 * 1024

abbrev pub asan_fake_stack_count : ℕ
asan_fake_stack_count = 16

abbrev pub asan_shadow_stack_left : ℕ
asan_shadow_stack_left = 0xF1

-- `asan_fake_stacks` without the bytes of the stacks, and the shadow.
pub record FakeStacks : Type 0 where
  pub in_use : ℕ → Bool
  pub alloc_size : ℕ → ℕ
  pub memory : Memory

-- The address of `asan_fake_stacks[i].mem`: `in_use`, padding and `alloc_size` take 16 bytes.
abbrev pub stack_mem : ℕ → ℕ → ℕ
stack_mem stacks_at i = stacks_at + i * (asan_fake_stack_size + 16)

-- The loop of `__asan_handle_no_return` from the stack `i` on, with the rounds left.
unfoldable pub poison_from : ℕ → ℕ → ℕ → (ℕ → Bool) → Memory → Memory
poison_from zero i stacks_at in_use m = m
poison_from (suc rounds) i stacks_at in_use m = poison_from rounds (i + 1) stacks_at in_use (
    if in_use i
    then asan_poison_range m (stack_mem stacks_at i) asan_fake_stack_size asan_shadow_poisoned
    else m)

unfoldable pub asan_handle_no_return : ℕ → FakeStacks → FakeStacks
asan_handle_no_return stacks_at s = record s {
  memory = poison_from asan_fake_stack_count 0 stacks_at s.in_use s.memory;
}

-- The loop of `asan_fake_stack_alloc`: the first stack whose compare-exchange succeeds.
unfoldable pub first_free : ℕ → ℕ → (ℕ → Bool) → Option ℕ
first_free zero i in_use = none
first_free (suc rounds) i in_use =
    let rest = first_free rounds (i + 1) in_use in if in_use i then rest else some i

-- The address and `*idx_out`, or `none` for 0 and -1.
unfoldable pub asan_fake_stack_alloc : ℕ → FakeStacks → ℕ → Option (ℕ × ℕ) × FakeStacks
asan_fake_stack_alloc stacks_at s size = elim (first_free asan_fake_stack_count 0 s.in_use) [
  | none ↦ (none, s)
  | some i ↦ (
    some (stack_mem stacks_at i, i),
    record {
      in_use = update s.in_use i true;
      alloc_size = update s.alloc_size i size;
      memory = asan_unpoison_range s.memory (stack_mem stacks_at i) size;
    },
  )
]

-- `none` stands for a negative index.
unfoldable pub asan_fake_stack_free : ℕ → FakeStacks → Option ℕ → ℕ → FakeStacks
asan_fake_stack_free stacks_at s none size = s
asan_fake_stack_free stacks_at s (some idx) size =
    if leb asan_fake_stack_count idx then s else record s {
      in_use = update s.in_use idx false;
      memory = asan_poison_range s.memory (stack_mem stacks_at idx) size asan_shadow_stack_left;
    }
