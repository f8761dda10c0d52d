-- ===== src/Tsan/Calls/First/Access.antt =====
-- What one call of the first thread leaves.
use misan.Prelude.{
  ℕ, ◌+◌, ◌≡◌, ◌≤◌, ◌<◌, Bool, false, Option, [], update, Exec, done, arith, refl, ◌∙◌, ap,
}
use misan.Common.Platform.{Machine}
use misan.Tsan.Clock.{tsan_vc_inc}
use misan.Tsan.Table.{tsan_shadow_entries}
use misan.Tsan.Table.Room.{taken-le}
use misan.Tsan.Runtime.{Tsan, Shadow, clock_of, shadow_holds, record_access, tsan_access}
use misan.Tsan.Runtime.Entries.{shadow_get-room}
use misan.Tsan.Calls.Alone.{tsan_access-records}
use misan.Tsan.Sync.Kept.{Keeps}
use misan.Tsan.Calls.First.{AreEarly, IsFirst, IsFirst-IsAlone}

module _ (fuel : ℕ) (machine : Machine) (self k : ℕ) (few : k < 65535) where
  pub access-IsFirst :
      (s : Tsan) (addr : ℕ) (w : Bool)
      → IsFirst self k s
      → (s' : Tsan) × (tsan_access fuel machine self s addr w ≡ done [] s')
        × IsFirst self (k + 1) s'
  unfolding record_access update tsan_vc_inc
  access-IsFirst s addr w v =
      let (i, table, e, entry) = shadow_get-room s.shadow addr (omega (arith, v.room)) in
      (
        record_access (record s { shadow = table }) i 1 w,
        tsan_access-records fuel machine self 1 s addr i table w (IsFirst-IsAlone self k s v) e
            entry,
        record {
          unlocked = v.unlocked;
          known = v.known;
          counted = v.counted;
          strangers = v.strangers;
          tids = λ j. ground (arith, v.tids j, entry.others j);
          zeroth = ground (arith, v.zeroth);
          own_pos = ground (arith, v.own_pos, v.own_le);
          own_le = ground (arith, v.own_le);
          unmet = ground (arith, v.unmet);
          mutexes = λ j. (omega (arith, v.mutexes j), (v.mutexes j).1);
          room = omega (
            arith,
            v.room,
            taken-le tsan_shadow_entries (shadow_holds s.shadow)
                (shadow_holds (record_access (record s { shadow = table }) i 1 w).shadow) i
                (λ j ne. ground (arith, entry.others j)),
          );
        },
      )

  -- A handler of mutexes changes the clocks of the thread and of mutexes only.
  pub section-IsFirst :
      (s s' : Tsan) (m : Exec Tsan)
      → IsFirst self k s
      → Keeps 1 s s'
      → (0 < clock_of s' 1 1) × (clock_of s' 1 1 ≤ k + 2) × (clock_of s' 1 2 ≡ 0)
      → AreEarly (k + 1) s'.mutexes
      → m ≡ done [] (record s' { locked = false })
      → (s'' : Tsan) × (m ≡ done [] s'') × IsFirst self (k + 1) s''
  section-IsFirst s s' m v kept (lo, hi, unmet) early run = (
    record s' { locked = false },
    run,
    record {
      unlocked = refl;
      known = ap (λ (f : ℕ → Option ℕ). f self) kept.ids ∙ v.known;
      counted = kept.count ∙ v.counted;
      strangers = λ other ne. ap (λ (f : ℕ → Option ℕ). f other) kept.ids ∙ v.strangers other ne;
      tids = λ i. ground (arith, v.tids i, ap (λ (f : ℕ → Shadow). f i) kept.shadows);
      zeroth = ground (arith, v.zeroth, kept.others 0);
      own_pos = lo;
      own_le = omega (arith, hi);
      unmet = unmet;
      mutexes = early;
      room = rw kept.shadows (omega (arith, v.room));
    },
  )
