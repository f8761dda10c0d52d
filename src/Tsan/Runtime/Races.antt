-- ===== src/Tsan/Runtime/Races.antt =====
-- Which accesses are reported as races.
use misan.Prelude.{
  ℕ, ◌+◌, ◌^◌, Bool, true, false, Option, none, some, if◌then◌else◌, ◌≡◌, ◌≢◌, ◌≤◌, ◌<◌, inl, inr,
  arith, refl, done, returns, update, returns->>=, [], abort, ap,
}
use misan.Common.Platform.{Machine}
use misan.Tsan.Clock.{tsan_vc_inc, tsan_vc_happens_before}
use misan.Tsan.Runtime.{
  Tsan, Shadow, shadow_holds, clock_of, tsan_shadow_get, is_race, record_access, race_text,
  tsan_report_race, checked_access, entry_access,
}
use misan.Tsan.Runtime.Entries.{IsEntry, shadow_get-IsEntry}

-- No entry of the shadow table was written by a write access.
abbrev pub NoWrites : Tsan → Type 0
NoWrites s = (i : ℕ) → (s.shadow i).is_write ≡ false

module _ (fuel : ℕ) (machine : Machine) where
  pub tsan_report_race-returns :
      (tid addr : ℕ) (w : Bool) (other : ℕ) (v : Bool)
      → returns (tsan_report_race fuel machine {A = Tsan} tid addr w other v) ≡ false
  unfolding tsan_report_race
  tsan_report_race-returns tid addr w other v =
      returns->>= (race_text fuel machine tid addr w other v) (λ _. abort) (λ _. refl)

  module _ (s : Tsan) (tid addr : ℕ) (w : Bool) (table : ℕ → Shadow) where
    pub checked-none :
        tsan_shadow_get s.shadow addr true ≡ (none, table)
        → checked_access fuel machine s tid addr w ≡ done [] (record s { shadow = table })
    unfolding checked_access
    checked-none e = ap (entry_access fuel machine s tid addr w) e

    pub checked-some :
        (i : ℕ)
        → tsan_shadow_get s.shadow addr true ≡ (some i, table)
        → checked_access fuel machine s tid addr w ≡ (
            if is_race s (table i) addr tid w
            then tsan_report_race fuel machine tid addr w (table i).tid (table i).is_write
            else done [] (record_access (record s { shadow = table }) i tid w))
    unfolding checked_access
    checked-some i e = ap (entry_access fuel machine s tid addr w) e

  -- While no entry was recorded by a write, no read is reported, whatever the threads and clocks
  -- are, and no entry is one after it.
  pub checked_access-NoWrites :
      (s : Tsan) (tid addr : ℕ)
      → NoWrites s
      → (s' : Tsan) × (checked_access fuel machine s tid addr false ≡ done [] s') × NoWrites s'
  unfolding checked_access is_race record_access update
  checked_access-NoWrites s tid addr quiet = elim (shadow_get-IsEntry s.shadow addr) [
    | inl e ↦ (s, checked-none s tid addr false s.shadow e, quiet)
    | inr (i, table, e, entry) ↦ (
      record_access (record s { shadow = table }) i tid false,
      ground (arith, checked-some s tid addr false table i e, entry.same_kind, quiet i),
      λ j. ground (arith, quiet j, entry.others j),
    )
  ]

  module _ (s : Tsan) (a b addr : ℕ) (w : Bool) (apart : a ≢ b) (fits : clock_of s a a + 1 < 2 ^ 64)
      (unseen : clock_of s b a ≤ clock_of s a a) (unseen' : clock_of s a b < clock_of s b b) where
    recorded :
        (s₁ : Tsan) (i : ℕ) (table : ℕ → Shadow)
        → tsan_shadow_get s.shadow addr true ≡ (some i, table)
        → checked_access fuel machine s a addr w ≡ done [] s₁
        → s₁ ≡ record_access (record s { shadow = table }) i a w
    recorded s₁ i table e run = ground (
      arith,
      run,
      checked-some s a addr w table i e,
      tsan_report_race-returns a addr w (table i).tid (table i).is_write,
    )

    holds-record :
        (i : ℕ) (table : ℕ → Shadow)
        → IsEntry s.shadow addr i table
        → (j : ℕ)
        → shadow_holds (record_access (record s { shadow = table }) i a w).shadow j
          ≡ shadow_holds table j
    unfolding record_access update
    holds-record i table entry j = ground arith

    is_race-contended :
        (i : ℕ) (table : ℕ → Shadow)
        → IsEntry s.shadow addr i table
        → let X = record_access (record s { shadow = table }) i a w in
          is_race X (X.shadow i) addr b true ≡ true
    unfolding is_race record_access update tsan_vc_inc tsan_vc_happens_before
    is_race-contended i table entry = ground arith

    -- After an access by a thread that was recorded, a write by a second thread to the same
    -- address is reported, if the first thread's own counter does not overflow, the second has
    -- seen no more of it than its value before the access, and the first has not seen the
    -- second's own counter.
    pub checked_access-contended :
        (s₁ : Tsan)
        → (tsan_shadow_get s.shadow addr true).0 ≢ none
        → checked_access fuel machine s a addr w ≡ done [] s₁
        → returns (checked_access fuel machine s₁ b addr true) ≡ false
    checked_access-contended s₁ room run = elim (shadow_get-IsEntry s.shadow addr) [
      | inl e ↦ absurd (room (ap (λ (r : Option ℕ × (ℕ → Shadow)). r.0) e))
      | inr (i, table, e, entry) ↦
          let X = record_access (record s { shadow = table }) i a w in
          let same : s₁ ≡ X = recorded s₁ i table e run in
          rw same (
            rw
              (checked-some X b addr true X.shadow i
                (entry.again X.shadow (holds-record i table entry)))
              (ground (
                arith,
                is_race-contended i table entry,
                tsan_report_race-returns b addr true (X.shadow i).tid (X.shadow i).is_write,
              )))
    ]
