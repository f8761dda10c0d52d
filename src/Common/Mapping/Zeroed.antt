-- ===== src/Common/Mapping/Zeroed.antt =====
-- What is read of the memory that `drt_arch_map_shadow_memory` leaves.
use misan.Prelude.{
  ℕ, ◌+◌, ◌<◌, ◌≤◌, ◌≡◌, Bool, true, false, some, arith, inl, inr, Option-cases, Bool-cases, ltb,
  ◌∙◌,
}
use misan.Common.Mapping.{Memory, Mmap, IsMmap, drt_arch_map_shadow_memory}

-- If one of the two mappings succeeds, the range reads 0.
pub map_shadow-zero :
    (mmap : Mmap) (addr size : ℕ) (m : Memory)
    → IsMmap mmap
    → 0 < addr
    → 0 < size
    → (drt_arch_map_shadow_memory mmap addr size m).0 ≡ true
    → (x : ℕ) → addr ≤ x
    → x < addr + size
    → (drt_arch_map_shadow_memory mmap addr size m).1 x ≡ 0
unfolding drt_arch_map_shadow_memory
map_shadow-zero mmap addr size m law pos pos' ok x lo hi =
    elim (Option-cases (mmap true addr size m)) [
      | inr (m', e) ↦ ground (arith, e, law.zeroed true addr size m m' e x lo hi)
      | inl e ↦ elim (Option-cases (mmap false addr size m)) [
        | inr (m', e') ↦ ground (arith, e, e', law.zeroed false addr size m m' e' x lo hi)
        | inl e' ↦ absurd (ground (arith, e, e'))
      ]
    ]

-- A byte that a mapping leaves is 0 or as it was.
mapped-zero :
    (mmap : Mmap) (no_replace : Bool) (addr size : ℕ) (m m' : Memory) (x : ℕ)
    → IsMmap mmap
    → mmap no_replace addr size m ≡ some m'
    → m x ≡ 0
    → m' x ≡ 0
mapped-zero mmap no_replace addr size m m' x law e old = elim (Bool-cases (ltb x addr)) [
  | inl below ↦ law.others no_replace addr size m m' e x (inl (ground arith)) ∙ old
  | inr from ↦ elim (Bool-cases (ltb x (addr + size))) [
    | inl inside ↦ law.zeroed no_replace addr size m m' e x (ground arith) (ground arith)
    | inr behind ↦ law.others no_replace addr size m m' e x (inr (ground arith)) ∙ old
  ]
]

-- A byte that is 0 stays 0, whatever comes of the mappings.
pub map_shadow-keeps_zero :
    (mmap : Mmap) (addr size : ℕ) (m : Memory) (x : ℕ)
    → IsMmap mmap
    → 0 < addr
    → 0 < size
    → m x ≡ 0
    → (drt_arch_map_shadow_memory mmap addr size m).1 x ≡ 0
unfolding drt_arch_map_shadow_memory
map_shadow-keeps_zero mmap addr size m x law pos pos' old =
    elim (Option-cases (mmap true addr size m)) [
      | inr (m', e) ↦ ground (arith, e, mapped-zero mmap true addr size m m' x law e old)
      | inl e ↦ elim (Option-cases (mmap false addr size m)) [
        | inr (m', e') ↦ ground (arith, e, e', mapped-zero mmap false addr size m m' x law e' old)
        | inl e' ↦ ground (arith, e, e', old)
      ]
    ]
