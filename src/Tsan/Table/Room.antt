-- ===== src/Tsan/Table/Room.antt =====
-- How many slots of a table are taken.
use misan.Prelude.{
  ℕ, zero, suc, ◌+◌, ◌≡◌, ◌≢◌, ◌≤◌, ◌<◌, Option, none, some, arith, refl, Option-cases, inl, inr,
}
use native.Mathlib.Decide.{ℕ_discrete}

-- The slots below `n` that are taken.
unfoldable pub taken : ℕ → (ℕ → Option ℕ) → ℕ
taken zero holds = 0
taken (suc n) holds = elim (holds n) [ some addr ↦ 1 | none ↦ 0 ] + taken n holds

pub taken-same :
    (n : ℕ) (f g : ℕ → Option ℕ) → ((j : ℕ) → j < n → g j ≡ f j) → taken n g ≡ taken n f
unfolding taken
taken-same zero f g same = refl
taken-same (suc n) f g same =
    ground (arith, same n, taken-same n f g (λ j lt. same j (omega arith)))

-- A change at one slot takes at most one more.
pub taken-le :
    (n : ℕ) (f g : ℕ → Option ℕ) (i : ℕ) → ((j : ℕ) → j ≢ i → g j ≡ f j) → taken n g ≤ taken n f + 1
unfolding taken
taken-le zero f g i same = omega arith
taken-le (suc n) f g i same = elim (ℕ_discrete n i) [
  | yes here ↦
      let below : taken n g ≡ taken n f = taken-same n f g (λ j lt. same j (λ e. omega arith)) in
      ground (arith, below)
  | no other ↦ ground (arith, same n other, taken-le n f g i same)
]

-- A table without a free slot.
pub taken-full : (n : ℕ) (f : ℕ → Option ℕ) → ((j : ℕ) → j < n → f j ≢ none) → taken n f ≡ n
unfolding taken
taken-full zero f full = refl
taken-full (suc n) f full = elim (Option-cases (f n)) [
  | inl e ↦ absurd (full n (omega arith) e)
  | inr (addr, e) ↦ ground (arith, e, taken-full n f (λ j lt. full j (omega arith)))
]

pub taken-empty : (n : ℕ) (f : ℕ → Option ℕ) → ((j : ℕ) → f j ≡ none) → taken n f ≡ 0
unfolding taken
taken-empty zero f free = refl
taken-empty (suc n) f free = ground (arith, free n, taken-empty n f free)

-- A slot that is given up takes none.
pub taken-freed :
    (n : ℕ) (f g : ℕ → Option ℕ) (i : ℕ)
    → ((j : ℕ) → j ≢ i → g j ≡ f j)
    → g i ≡ none
    → taken n g ≤ taken n f
unfolding taken
taken-freed zero f g i same free = omega arith
taken-freed (suc n) f g i same free = elim (ℕ_discrete n i) [
  | yes here ↦
      let below : taken n g ≡ taken n f = taken-same n f g (λ j lt. same j (λ e. omega arith)) in
      ground (arith, below, here, free)
  | no other ↦ ground (arith, same n other, taken-freed n f g i same free)
]
