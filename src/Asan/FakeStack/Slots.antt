-- ===== src/Asan/FakeStack/Slots.antt =====
-- Which fake stack is handed out.
use native.Mathlib.Decide.{ℕ_discrete}
use misan.Prelude.{
  ℕ, zero, suc, ◌+◌, ◌≤◌, ◌<◌, ◌≡◌, ◌⊎◌, Bool, true, false, Option, none, some, update, arith, sym,
  ◌∙◌, inl, inr, Bool-cases, Option-cases,
}
use misan.Asan.FakeStack.{
  FakeStacks, first_free, asan_fake_stack_alloc, asan_fake_stack_count, stack_mem,
}

-- The lowest index from `i` on whose stack is free.
abbrev pub IsFirstFree : ℕ → ℕ → (ℕ → Bool) → Option ℕ → Type 0
IsFirstFree rounds i in_use none = (j : ℕ) → i ≤ j → j < i + rounds → in_use j ≡ true
IsFirstFree rounds i in_use (some k) =
    (i ≤ k) × (k < i + rounds) × (in_use k ≡ false) × ((j : ℕ) → i ≤ j → j < k → in_use j ≡ true)

first_free-busy :
    (rounds i : ℕ) (in_use : ℕ → Bool)
    → in_use i ≡ true
    → first_free (suc rounds) i in_use ≡ first_free rounds (i + 1) in_use
unfolding first_free
first_free-busy rounds i in_use e = ground (arith, e)

first_free-IsFirstFree :
    (rounds i : ℕ) (in_use : ℕ → Bool) (r : Option ℕ)
    → first_free rounds i in_use ≡ r
    → IsFirstFree rounds i in_use r
unfolding first_free
first_free-IsFirstFree zero i in_use none e = λ j lo hi. absurd (omega arith)
first_free-IsFirstFree zero i in_use (some k) e = absurd (ground arith)
first_free-IsFirstFree (suc rounds) i in_use none e = elim (Bool-cases (in_use i)) [
  | inl busy ↦
      let ih =
        first_free-IsFirstFree rounds (i + 1) in_use none
          (sym (first_free-busy rounds i in_use busy) ∙ e) in
      λ j lo hi. elim (ℕ_discrete i j) [
        | yes same ↦ rw (← same) busy
        | no other ↦ ih j (omega arith) (omega arith)
      ]
  | inr free ↦ absurd (ground (arith, free))
]
first_free-IsFirstFree (suc rounds) i in_use (some k) e = elim (Bool-cases (in_use i)) [
  | inl busy ↦
      let (lo', hi', free, before) =
        first_free-IsFirstFree rounds (i + 1) in_use (some k)
          (sym (first_free-busy rounds i in_use busy) ∙ e) in
      (
        omega arith,
        omega arith,
        free,
        λ j lo hi. elim (ℕ_discrete i j) [
          | yes same ↦ rw (← same) busy
          | no other ↦ before j (omega arith) (omega arith)
        ],
      )
  | inr free ↦
      let same : i ≡ k = ground (arith, free) in
      (omega arith, omega arith, rw (← same) free, λ j lo hi. absurd (omega arith))
]

-- The first free stack is handed out and taken, or none if all are in use.
pub asan_fake_stack_alloc-IsFirstFree :
    (stacks_at : ℕ) (s : FakeStacks) (size : ℕ)
    → ((s' : FakeStacks) × (idx : ℕ) × (asan_fake_stack_alloc stacks_at s size
          ≡ (some (stack_mem stacks_at idx, idx), s'))
        × IsFirstFree asan_fake_stack_count 0 s.in_use (some idx)
        × (s'.in_use ≡ update s.in_use idx true))
      ⊎ ((asan_fake_stack_alloc stacks_at s size ≡ (none, s))
          × IsFirstFree asan_fake_stack_count 0 s.in_use none)
unfolding asan_fake_stack_alloc
asan_fake_stack_alloc-IsFirstFree stacks_at s size =
    elim (Option-cases (first_free asan_fake_stack_count 0 s.in_use)) [
      | inl e ↦
          inr (ground (arith, e), first_free-IsFirstFree asan_fake_stack_count 0 s.in_use none e)
      | inr (k, e) ↦ inl (
        (asan_fake_stack_alloc stacks_at s size).1,
        k,
        ground (arith, e),
        first_free-IsFirstFree asan_fake_stack_count 0 s.in_use (some k) e,
        ground (arith, e),
      )
    ]
