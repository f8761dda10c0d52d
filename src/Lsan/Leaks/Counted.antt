-- ===== src/Lsan/Leaks/Counted.antt =====
-- The number of leaks that the check finds, against what a leak is.
use misan.Prelude.{
  ℕ, ◌+◌, Bool, true, false, List, [], ◌∷◌, All, Any, ◌≡◌, ◌⊎◌, inl, inr, refl, arith, done,
  returns, Bool-cases,
}
use mathlib.Core.Path.{subst}
use misan.Common.Platform.{Machine}
use misan.Lsan.{Lsan, Alloc, active}
use misan.Lsan.Reachable.{
  AreBlocks, ReachedFromRoot, ReachedFromAlloc, is_active_iff, lsan_mark_reachable_iff,
}
use misan.Lsan.Check.{is_leak, report_leak, lsan_do_check_internal, lsan_mark_reachable}
use misan.Lsan.Leaks.{leak_count, ReportEnds, lsan_do_check_internal-leak_count}

-- A live block that is not ignored, whose address is in no root region and is held by no root
-- region and no live block.
abbrev pub IsLeak : (ℕ → ℕ) → Lsan → Alloc → Type 0
IsLeak memory s a =
    (a.state ≡ active)
    × (a.ignored ≡ false)
    × ¬ (
        Any (ReachedFromRoot memory a.addr) s.roots ⊎ Any (ReachedFromAlloc memory a.addr) s.allocs)

-- `n` of the blocks are as `P` says.
abbrev pub Counts : (Alloc → Type 0) → List Alloc → ℕ → Type 0
Counts P [] n = n ≡ 0
Counts P (a ∷ others) n =
    (P a × ((k : ℕ) × (n ≡ k + 1) × Counts P others k)) ⊎ ((¬ P a) × Counts P others n)

module _ (memory : ℕ → ℕ) (s : Lsan) (blocks : AreBlocks s) where
  is_leak_sound : (a : Alloc) → is_leak memory s a ≡ true → IsLeak memory s a
  unfolding is_leak
  is_leak_sound a e = (
    (is_active_iff a.state).0 (ground (arith, e)),
    ground (arith, e),
    λ h.
        let reached = (lsan_mark_reachable_iff memory s a blocks).1 h in ground (arith, e, reached),
  )

  is_leak_complete : (a : Alloc) → is_leak memory s a ≡ false → ¬ IsLeak memory s a
  unfolding is_leak
  is_leak_complete a e (live, kept, unreached) =
      elim (Bool-cases (lsan_mark_reachable memory s a)) [
        | inl reached ↦ unreached ((lsan_mark_reachable_iff memory s a blocks).0 reached)
        | inr lost ↦ let on = (is_active_iff a.state).1 live in ground (arith, e, on, kept, lost)
      ]

  leak_count-Counts : (xs : List Alloc) → Counts (IsLeak memory s) xs (leak_count memory s xs)
  unfolding leak_count
  leak_count-Counts [] = refl
  leak_count-Counts (a ∷ others) = elim (Bool-cases (is_leak memory s a)) [
    | inl leak ↦ inl (
      is_leak_sound a leak,
      (leak_count memory s others, ground (arith, leak), leak_count-Counts others),
    )
    | inr kept ↦
        let same : leak_count memory s others ≡ leak_count memory s (a ∷ others) =
          ground (arith, kept) in
        inr (
          is_leak_complete a kept,
          subst (λ n. Counts (IsLeak memory s) others n) same (leak_count-Counts others),
        )
  ]

  leak_count-none :
      (xs : List Alloc) → All (λ a. ¬ IsLeak memory s a) xs → leak_count memory s xs ≡ 0
  unfolding leak_count
  leak_count-none [] none = refl
  leak_count-none (a ∷ others) none = elim (Bool-cases (is_leak memory s a)) [
    | inl leak ↦ absurd (none.0 (is_leak_sound a leak))
    | inr kept ↦ ground (arith, kept, leak_count-none others none.1)
  ]

module _ (fuel : ℕ) (machine : Machine) (s : Lsan) (blocks : AreBlocks s) where
  reports-end :
      (xs : List Alloc)
      → All (λ a. IsLeak machine.word_at s a → returns (report_leak fuel machine a) ≡ true) xs
      → All (ReportEnds fuel machine s) xs
  reports-end [] h = tt
  reports-end (a ∷ others) h =
      ((λ leak. h.0 (is_leak_sound machine.word_at s blocks a leak)), reports-end others h.1)

  -- If the lock is free, no block goes round the end of the address space and the reports of the
  -- leaks come to their end, a check that is not fatal or finds no leak returns the number of the
  -- leaks and leaves the tables as they are; a leak is a live block that is not ignored and that
  -- neither a root region nor a live block reaches.
  pub lsan_do_check_internal-Counts :
      (fatal : Bool)
      → s.locked ≡ false
      → All (λ a. IsLeak machine.word_at s a → returns (report_leak fuel machine a) ≡ true) s.allocs
      → (fatal ≡ false) ⊎ All (λ a. ¬ IsLeak machine.word_at s a) s.allocs
      → (o : List ℕ) × (n : ℕ) × (lsan_do_check_internal fuel machine s fatal ≡ done o (n, s))
        × Counts (IsLeak machine.word_at s) s.allocs n
  lsan_do_check_internal-Counts fatal free ends mild =
      let (o, run) =
        lsan_do_check_internal-leak_count fuel machine s fatal free (reports-end s.allocs ends)
          (elim mild [
            | inl e ↦ inl e
            | inr none ↦ inr (leak_count-none machine.word_at s blocks s.allocs none)
          ]) in
      (
        o,
        leak_count machine.word_at s s.allocs,
        run,
        leak_count-Counts machine.word_at s blocks s.allocs,
      )
