-- ===== src/Lsan/Leaks.antt =====
-- What the leak check counts, and how it ends.
pub mod Counted
use misan.Prelude.{
  ℕ, ◌+◌, ◌^◌, Bool, true, false, List, [], ◌∷◌, ◌++◌, ◌≡◌, ◌<◌, refl, arith, Bool-cases, inl, inr,
  if◌then◌else◌, done, ◌⊎◌, All, Any, returns, returns_iff, codes,
}
use misan.Common.Platform.{Machine}
use misan.Common.Printf.{drt_printf, word, drt_vprintf, format_rounds}
use misan.Lsan.{Lsan, Alloc}
use misan.Lsan.Reachable.{AreBlocks, ReachedFromAlloc, lsan_mark_reachable_iff}
use misan.Common.Printf.Ends.{drt_printf-Spins, drt_die-returns, Spins->>=, Spins-after}
use misan.Common.Number.Padding.{Spins}
use misan.Lsan.Check.{
  is_leak, report_leak, check_entries, lsan_do_check_internal, lsan_do_leak_check,
  lsan_mark_reachable,
}

unfoldable pub leak_count : (ℕ → ℕ) → Lsan → List Alloc → ℕ
leak_count memory s [] = 0
leak_count memory s (a ∷ others) =
    (if is_leak memory s a then 1 else 0) + leak_count memory s others

module _ (fuel : ℕ) (machine : Machine) where
  -- The report of an entry, if it is made, comes to its end.
  abbrev pub ReportEnds : Lsan → Alloc → Type 0
  ReportEnds s a = is_leak machine.word_at s a ≡ true → returns (report_leak fuel machine a) ≡ true

  check_entries-count :
      (s : Lsan) (xs : List Alloc) (n : ℕ)
      → All (ReportEnds s) xs
      → (o : List ℕ) × (check_entries fuel machine s xs n
          ≡ done o (n + leak_count machine.word_at s xs))
  unfolding check_entries leak_count
  check_entries-count s [] n ends = ([], ground arith)
  check_entries-count s (a ∷ others) n ends = elim (Bool-cases (is_leak machine.word_at s a)) [
    | inl leak ↦
        let (o₁, u, run₁) = (returns_iff (report_leak fuel machine a)).0 (ends.0 leak) in
        let (o₂, run₂) = check_entries-count s others (n + 1) ends.1 in
        (o₁ ++ o₂, ground (arith, leak, run₁, run₂))
    | inr kept ↦
        let (o, run) = check_entries-count s others n ends.1 in (o, ground (arith, kept, run))
  ]

  check_entries-kept :
      (s : Lsan) (xs : List Alloc)
      → All (λ a. is_leak machine.word_at s a ≡ false) xs
      → check_entries fuel machine s xs 0 ≡ done [] 0
  unfolding check_entries
  check_entries-kept s [] h = refl
  check_entries-kept s (a ∷ xs) h = ground (arith, h.0, check_entries-kept s xs h.1)

  is_leak-reached :
      (s : Lsan) (a : Alloc)
      → lsan_mark_reachable machine.word_at s a ≡ true
      → is_leak machine.word_at s a ≡ false
  unfolding is_leak
  is_leak-reached s a h = ground arith

  -- If the lock is free and the reports of the leaks come to their end, a check that is not fatal
  -- or finds no leak returns the number of the leaks and leaves the tables as they are.
  pub lsan_do_check_internal-leak_count :
      (s : Lsan) (fatal : Bool)
      → s.locked ≡ false
      → All (ReportEnds s) s.allocs
      → (fatal ≡ false) ⊎ (leak_count machine.word_at s s.allocs ≡ 0)
      → (o : List ℕ) × (lsan_do_check_internal fuel machine s fatal
          ≡ done o (leak_count machine.word_at s s.allocs, s))
  unfolding lsan_do_check_internal
  lsan_do_check_internal-leak_count s fatal free ends mild =
      let (o, run) = check_entries-count s s.allocs 0 ends in (o ++ [], ground (arith, run))

  -- If the lock is free and the reports of the leaks come to their end, the fatal check does not
  -- return when there is a leak.
  pub lsan_do_leak_check-leak_count :
      (s : Lsan)
      → s.locked ≡ false
      → All (ReportEnds s) s.allocs
      → 0 < leak_count machine.word_at s s.allocs
      → returns (lsan_do_leak_check fuel machine s) ≡ false
  unfolding lsan_do_leak_check lsan_do_check_internal
  lsan_do_leak_check-leak_count s free ends pos =
      let (o, run) = check_entries-count s s.allocs 0 ends in
      ground (
        arith,
        run,
        drt_die-returns (ℕ × Lsan) fuel "LSan: %d leak(s) found\n"
            (word (leak_count machine.word_at s s.allocs) ∷ []),
      )

  -- If the lock is free, no block goes round the end of the address space and some live block of
  -- the table holds the address of each block, as in a cycle or a block that points to itself,
  -- the fatal check finds no leak and returns, whatever the roots are.
  pub lsan_do_leak_check-cycle :
      (s : Lsan)
      → s.locked ≡ false
      → AreBlocks s
      → All (λ (a : Alloc). Any (ReachedFromAlloc machine.word_at a.addr) s.allocs) s.allocs
      → lsan_do_leak_check fuel machine s ≡ done [] (0, s)
  unfolding lsan_do_leak_check lsan_do_check_internal
  lsan_do_leak_check-cycle s free blocks held =
      ground (arith, check_entries-kept s s.allocs (kept s.allocs held))
    where
      kept :
          (xs : List Alloc)
          → All (λ (a : Alloc). Any (ReachedFromAlloc machine.word_at a.addr) s.allocs) xs
          → All (λ a. is_leak machine.word_at s a ≡ false) xs
      kept [] h = tt
      kept (a ∷ xs) h = (
        is_leak-reached s a ((lsan_mark_reachable_iff machine.word_at s a blocks).1 (inr h.0)),
        kept xs h.1,
      )

  -- The report of a block at an address of fewer than 16 hexadecimal digits does not end.
  pub report_leak-Spins : (a : Alloc) → a.addr < 16 ^ 15 → Spins (report_leak fuel machine a)
  unfolding report_leak drt_printf drt_vprintf format_rounds
  report_leak-Spins a low = Spins-after (codes "\n==LSAN: LEAK DETECTED==\n") _ (
      Spins->>= _ _ (
        drt_printf-Spins fuel "  Address: %p  Size: %zu bytes\n" "  Address: " "  Size: %zu bytes\n"
          a.addr (word a.size ∷ []) refl (omega arith) low))
