-- ===== src/Lsan/Check.antt =====
-- src/lsan/lsan_rtl.c: which allocations are reachable, and the leak check.
use misan.Prelude.{
  ℕ, zero, suc, ◌+◌, ◌/◌, Bool, true, false, List, [], ◌∷◌, u64, ltb, leb, ◌==◌, if◌then◌else◌,
  ◌&&◌, ◌||◌, Exec, ◌>>=◌, ◌>>◌, pure, not,
}
use misan.Common.Printf.{word, drt_printf, drt_die}
use misan.Common.Platform.{Machine, drt_print_stack_trace, drt_spin_lock, drt_spin_unlock}
use misan.Lsan.{Lsan, Alloc, Root, is_active}

unfoldable pub lsan_is_pointer_inside : ℕ → ℕ → ℕ → Bool
lsan_is_pointer_inside p b size = leb b p && ltb p (u64 (b + size))

-- `for (w = 0; w < words; w++) if (scan[w] == target) return 1;` with `words` rounds left.
unfoldable pub scan_words : (ℕ → ℕ) → ℕ → ℕ → ℕ → Bool
scan_words memory scan zero target = false
scan_words memory scan (suc words) target =
    memory scan == target || scan_words memory (u64 (scan + 8)) words target

-- The first loop of `lsan_mark_reachable`.
unfoldable pub reached_from_roots : (ℕ → ℕ) → List Root → ℕ → Bool
unfolding lsan_is_pointer_inside
reached_from_roots memory [] target = false
reached_from_roots memory (r ∷ rs) target =
    lsan_is_pointer_inside target r.addr r.size
    || scan_words memory r.addr (r.size / 8) target
    || reached_from_roots memory rs target

-- The second loop.
unfoldable pub reached_from_allocs : (ℕ → ℕ) → List Alloc → ℕ → Bool
reached_from_allocs memory [] target = false
reached_from_allocs memory (a ∷ others) target =
    (is_active a.state && scan_words memory a.addr (a.size / 8) target)
    || reached_from_allocs memory others target

unfoldable pub lsan_mark_reachable : (ℕ → ℕ) → Lsan → Alloc → Bool
lsan_mark_reachable memory s a =
    reached_from_roots memory s.roots a.addr || reached_from_allocs memory s.allocs a.addr

-- An entry that the check reports.
unfoldable pub is_leak : (ℕ → ℕ) → Lsan → Alloc → Bool
is_leak memory s a = is_active a.state && not a.ignored && not (lsan_mark_reachable memory s a)

module _ (fuel : ℕ) (machine : Machine) where
  unfoldable pub report_leak : Alloc → Exec (Unit {0})
  report_leak a = do
    drt_printf fuel "\n==LSAN: LEAK DETECTED==\n" []
    drt_printf fuel "  Address: %p  Size: %zu bytes\n" (word a.addr ∷ word a.size ∷ [])
    drt_print_stack_trace fuel a.stack

  -- The loop of `lsan_do_check_internal` from an entry on.
  unfoldable pub check_entries : Lsan → List Alloc → ℕ → Exec ℕ
  check_entries s [] leaks_found = pure leaks_found
  check_entries s (a ∷ others) leaks_found = elim (is_leak machine.word_at s a) [
    | true ↦ report_leak a >>= λ _. check_entries s others (leaks_found + 1)
    | false ↦ check_entries s others leaks_found
  ]

  unfoldable pub lsan_do_check_internal : Lsan → Bool → Exec (ℕ × Lsan)
  unfolding drt_spin_lock drt_spin_unlock
  lsan_do_check_internal s fatal = do
    held ← drt_spin_lock s.locked
    leaks_found ← check_entries s s.allocs 0
    released ← drt_spin_unlock held
    if not (leaks_found == 0) && fatal
        then drt_die fuel "LSan: %d leak(s) found\n" (word leaks_found ∷ [])
        else pure (leaks_found, record s { locked = released })

  unfoldable pub lsan_do_leak_check : Lsan → Exec (ℕ × Lsan)
  unfolding lsan_do_check_internal
  lsan_do_leak_check s = lsan_do_check_internal s true

  unfoldable pub lsan_do_recoverable_leak_check : Lsan → Exec (ℕ × Lsan)
  unfolding lsan_do_check_internal
  lsan_do_recoverable_leak_check s = lsan_do_check_internal s false
