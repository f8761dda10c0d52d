-- ===== src/Tsan/Abstract/Accesses.antt =====
-- An access of the runtime and an access of the abstract state.
use misan.Prelude.{
  ℕ, suc, Bool, true, false, none, some, ◌≡◌, ◌<◌, [], update, Exec, done, ◌>>=◌, returns,
  returns-stopped, after-nil, arith, refl, ap, ◌∙◌, Bool-cases, inl, inr,
}
use misan.Common.Platform.{Machine, drt_spin_lock, drt_spin_unlock}
use misan.Tsan.Clock.{tsan_vc_inc, tsan_vc_happens_before}
use misan.Tsan.Runtime.{
  Tsan, Shadow, clock_of, tsan_shadow_get, is_race, record_access, checked_access, tsan_get_tid,
  tsan_access,
}
use misan.Tsan.Runtime.Entries.{IsEntry, shadow_get-room}
use misan.Tsan.Runtime.Races.{checked-some, tsan_report_race-returns}
use misan.Tsan.Abstract.{View, and_then, enter, races_with, access}
use misan.Tsan.Abstract.Shadows.{entry-last, noted-Shadows}
use misan.Tsan.Abstract.Represents.{
  Represents, Agrees, Agrees-and_then, clock-update, tsan_get_tid-AgreesOnId,
}

module _ (fuel : ℕ) (machine : Machine) (n c : ℕ) (s : Tsan) (v : View)
    (rep : Represents s v (suc n) c) (tid : ℕ) (pos : 0 < tid) (addr : ℕ) (w : Bool) where
  module _ (i : ℕ) (table : ℕ → Shadow) (entry : IsEntry s.shadow addr i table) where
    -- The entry races with the access as the map's does.
    is_race-races_with : is_race s (table i) addr tid w ≡ races_with v (v.last addr) tid w
    unfolding is_race races_with tsan_vc_happens_before
    is_race-races_with = elim (entry-last s.shadow v.last n rep.shadows addr i table entry) [
      | inl known ↦
          rw (known, entry.active, entry.addressed, rep.clocks (table i).tid, rep.clocks tid)
            (ground arith)
      | inr (absent, idle) ↦ rw (absent, idle, rep.clocks 0, rep.zeroth) (ground arith)
    ]

    recorded : Tsan
    recorded = record (record_access (record s { shadow = table }) i tid w) { locked = false }

    accessed : View
    accessed = record v {
      last = update v.last addr (some (tid, w));
      clocks = update v.clocks tid (tsan_vc_inc (v.clocks tid) tid);
    }

    recorded-clocks : (t : ℕ) → clock_of recorded t ≡ accessed.clocks t
    unfolding recorded accessed record_access
    recorded-clocks t =
        clock-update s.threads v.clocks rep.clocks tid _ t
        ∙ ap (λ (k : ℕ → ℕ). update v.clocks tid (tsan_vc_inc k tid) t) (rep.clocks tid)

    recorded-Represents : Represents recorded accessed n c
    unfolding recorded accessed record_access
    recorded-Represents = record {
      free = refl;
      ids = rep.ids;
      count = rep.count;
      positive = rep.positive;
      clocks = recorded-clocks;
      zeroth = unfold update in ground (arith, rep.zeroth);
      shadows =
          noted-Shadows s.shadow v.last n rep.shadows addr i table entry (clock_of s tid) tid w;
      mutexes = rep.mutexes;
    }

    access-stopped :
        tsan_shadow_get s.shadow addr true ≡ (some i, table)
        → races_with v (v.last addr) tid w ≡ true
        → (returns (checked_access fuel machine s tid addr w) ≡ false)
          × (access v tid addr w ≡ none)
    unfolding access
    access-stopped run race = (
      ground (
        arith,
        race,
        is_race-races_with,
        checked-some fuel machine s tid addr w table i run,
        tsan_report_race-returns fuel machine tid addr w (table i).tid (table i).is_write,
      ),
      ground (arith, race),
    )

    access-recorded :
        tsan_shadow_get s.shadow addr true ≡ (some i, table)
        → races_with v (v.last addr) tid w ≡ false
        → (checked_access fuel machine s tid addr w
            ≡ done [] (record_access (record s { shadow = table }) i tid w))
          × (access v tid addr w ≡ some accessed)
    unfolding access accessed
    access-recorded run race = (
      ground (arith, race, is_race-races_with, checked-some fuel machine s tid addr w table i run),
      ground (arith, race),
    )

  abbrev released : Exec Tsan
  released = drt_spin_lock s.locked >>= λ held. checked_access fuel machine s tid addr w >>= λ s'.
      drt_spin_unlock held >>= λ free. done [] (record s' { locked = free })

  -- A thread that has its id takes the lock, and stops exactly where there is a race.
  access-Agrees : Agrees n c released (access v tid addr w)
  unfolding drt_spin_lock drt_spin_unlock recorded record_access
  access-Agrees =
      let (i, table, run, entry) =
        shadow_get-room s.shadow addr (omega (arith, rep.shadows.room)) in
      elim (Bool-cases (races_with v (v.last addr) tid w)) [
        | inl race ↦
            let (stopped, absent) = access-stopped i table entry run race in
            simp (absent, rep.free, after-nil)
              (returns-stopped (checked_access fuel machine s tid addr w) _ stopped)
        | inr clear ↦
            let (went, there) = access-recorded i table entry run clear in
            simp (there, rep.free, went)
              (recorded i table entry, refl, recorded-Represents i table entry)
      ]

-- An access by any thread.
pub tsan_access-Agrees :
    (fuel : ℕ) (machine : Machine) (self n c : ℕ) (s : Tsan) (v : View) (addr : ℕ) (w : Bool)
    → Represents s v (suc n) c
    → Agrees n c
        (tsan_access fuel machine self s addr w)
        (and_then (enter self v) (λ r. access r.1 r.0 addr w))
unfolding tsan_access
tsan_access-Agrees fuel machine self n c s v addr w rep =
    Agrees-and_then (suc n) c n c (tsan_get_tid fuel machine self s) (enter self v) _ _
      (tsan_get_tid-AgreesOnId fuel machine self (suc n) c s v rep)
      (λ tid s' v' pos rep'. access-Agrees fuel machine n c s' v' rep' tid pos addr w)
