-- ===== src/Tsan/Abstract/Forgotten.antt =====
-- The clock that an entry of the shadow table keeps, which nothing reads.
pub mod Programs
use misan.Prelude.{
  ℕ, Bool, true, false, Option, none, some, List, [], ◌∷◌, ◌≡◌, if◌then◌else◌, update, Exec, done,
  aborted, spinning, fault, after, ◌>>=◌, ◌==◌, arith, refl, ap, sym, ◌∙◌, Bool-cases, inl, inr,
  fun_ext, returns,
}
use misan.Common.Platform.{Machine, drt_spin_lock, drt_spin_unlock}
use misan.Tsan.Clock.{Clock, zero_clock}
use misan.Tsan.Table.{Slot, found, claimed, nowhere, probe, tsan_shadow_entries, tsan_shadow_hash}
use misan.Tsan.Runtime.{
  Tsan, Shadow, shadow_holds, tsan_shadow_get, is_race, record_access, start_thread, tsan_get_tid,
  tsan_report_race, entry_access, checked_access, tsan_access,
}

abbrev pub forget_clocks : (ℕ → Shadow) → ℕ → Shadow
forget_clocks table i = record (table i) { vc = zero_clock }

abbrev pub forget : Tsan → Tsan
forget s = record s { shadow = forget_clocks s.shadow }

-- The outcome of a call, but for the clocks in the shadow table.
abbrev pub forgotten : Exec Tsan → Exec Tsan
forgotten (done o s) = done o (forget s)
forgotten (aborted o) = aborted o
forgotten (spinning o) = spinning o
forgotten (fault o) = fault o

forget-update :
    (table : ℕ → Shadow) (i : ℕ) (e : Shadow)
    → forget_clocks (update table i e)
      ≡ update (forget_clocks table) i (record e { vc = zero_clock })
unfolding update
forget-update table i e =
    fun_ext
      (λ j. elim (Bool-cases (j == i)) [ inl here ↦ rw here refl | inr there ↦ rw there refl ])

-- The search does not look at the clocks.
shadow_get-forget :
    (table : ℕ → Shadow) (addr : ℕ) (alloc : Bool)
    → ((tsan_shadow_get (forget_clocks table) addr alloc).0 ≡ (tsan_shadow_get table addr alloc).0)
      × (forget_clocks (tsan_shadow_get (forget_clocks table) addr alloc).1
          ≡ forget_clocks (tsan_shadow_get table addr alloc).1)
unfolding tsan_shadow_get
shadow_get-forget table addr alloc = go (
    probe (shadow_holds table) tsan_shadow_entries addr alloc tsan_shadow_entries
      (tsan_shadow_hash addr) (tsan_shadow_hash addr))
  where
    pick : (ℕ → Shadow) → Slot → Option ℕ × (ℕ → Shadow)
    pick t slot = elim slot [
      | found i ↦ (some i, t)
      | claimed i ↦ (some i, update t i (record (t i) { addr = addr; active = true }))
      | nowhere ↦ (none, t)
    ]

    go :
        (slot : Slot)
        → ((pick (forget_clocks table) slot).0 ≡ (pick table slot).0)
          × (forget_clocks (pick (forget_clocks table) slot).1 ≡ forget_clocks (pick table slot).1)
    go (found i) = (refl, refl)
    go nowhere = (refl, refl)
    go (claimed i) = (refl, forget-update (forget_clocks table) i _ ∙ sym (forget-update table i _))

module _ (fuel : ℕ) (machine : Machine) (s : Tsan) (tid addr : ℕ) (w : Bool) where
  -- The entry after an access, but for its clock.
  marked : (ℕ → Shadow) → ℕ → ℕ → Shadow
  marked table i = update table i (record (table i) { tid = tid; is_write = w; vc = zero_clock })

  module _ (table table' : ℕ → Shadow) (same : forget_clocks table ≡ forget_clocks table')
      (i : ℕ) where
    record_access-forget :
        forget (record_access (record s { shadow = table }) i tid w)
        ≡ forget (record_access (record (forget s) { shadow = table' }) i tid w)
    unfolding record_access marked
    record_access-forget =
        ap (λ u. record (record_access (record s { shadow = table }) i tid w) { shadow = u })
          (forget-update table i _ ∙ ap (λ u. marked u i) same ∙ sym (forget-update table' i _))

    is_race-forget : is_race s (table i) addr tid w ≡ is_race (forget s) (table' i) addr tid w
    unfolding is_race
    is_race-forget = ap (λ (u : ℕ → Shadow). is_race s (u i) addr tid w) same

    entry_access-some :
        forgotten (entry_access fuel machine s tid addr w (some i, table))
        ≡ forgotten (entry_access fuel machine (forget s) tid addr w (some i, table'))
    unfolding entry_access
    entry_access-some = elim (Bool-cases (is_race s (table i) addr tid w)) [
      | inl race ↦
          rw (sym is_race-forget, race)
            (ap
              (λ (u : ℕ → Shadow).
                forgotten (tsan_report_race fuel machine tid addr w (u i).tid (u i).is_write))
              same)
      | inr clear ↦ rw (sym is_race-forget, clear) (ap (done []) record_access-forget)
    ]

  entry_access-forget :
      (o : Option ℕ) (table table' : ℕ → Shadow)
      → forget_clocks table ≡ forget_clocks table'
      → forgotten (entry_access fuel machine s tid addr w (o, table))
        ≡ forgotten (entry_access fuel machine (forget s) tid addr w (o, table'))
  unfolding entry_access
  entry_access-forget none table table' same = ap (λ u. done [] (record s { shadow = u })) same
  entry_access-forget (some i) table table' same = entry_access-some table table' same i

  pub checked_access-forget :
      forgotten (checked_access fuel machine s tid addr w)
      ≡ forgotten (checked_access fuel machine (forget s) tid addr w)
  unfolding checked_access
  checked_access-forget =
      let (slot, table) = shadow_get-forget s.shadow addr true in
      entry_access-forget (tsan_shadow_get s.shadow addr true).0
        (tsan_shadow_get s.shadow addr true).1
        (tsan_shadow_get (forget_clocks s.shadow) addr true).1 (sym table)
      ∙ ap
          (λ o. forgotten (
            entry_access fuel machine (forget s) tid addr w
              (o, (tsan_shadow_get (forget_clocks s.shadow) addr true).1)))
          (sym slot)
