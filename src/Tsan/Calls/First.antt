-- ===== src/Tsan/Calls/First.antt =====
-- The state that the first thread of a program leaves, before a second one is started.
pub mod Access
pub mod Clocks
pub mod Sequences
use misan.Prelude.{
  ℕ, zero, suc, ◌+◌, ◌^◌, ◌≡◌, ◌≢◌, ◌≤◌, ◌<◌, ◌⊎◌, inl, inr, Bool, true, false, Option, none, some,
  List, [], ◌∷◌, length, update, update_ne, Exec, done, ◌>>=◌, arith, refl, ◌∙◌, ap, max,
  if◌then◌else◌, ◌==◌, Bool-cases,
}
use misan.Common.Platform.{Machine}
use misan.Tsan.Clock.{Clock, tsan_vc_inc, tsan_max_threads}
use misan.Tsan.Clock.Join.{tsan_vc_join_lem}
use misan.Tsan.Table.{
  Slot, found, claimed, nowhere, probe, tsan_shadow_entries, tsan_max_mutexes, tsan_mutex_index,
}
use misan.Tsan.Table.Room.{taken, taken-le}
use misan.Tsan.Runtime.{
  Tsan, Shadow, Mutex, clock_of, shadow_holds, mutex_holds, tsan_mutex_find, record_access,
  tsan_get_tid, tsan_access, tsan_func_entry, tsan_func_exit, tsan_read, tsan_write,
}
use misan.Tsan.Runtime.Entries.{IsEntry, shadow_get-room}
use misan.Tsan.Calls.{
  Call, func_entry, func_exit, read, write, mutex_create, mutex_destroy, pre_lock, post_lock,
  pre_unlock, post_unlock, perform, perform_all,
}
use misan.Tsan.Calls.Alone.{IsAlone, tsan_access-records}
use misan.Tsan.Sync.{
  create_found, destroy_found, lock_found, unlock_found, tsan_mutex_create, tsan_mutex_destroy,
  tsan_mutex_pre_lock, tsan_mutex_post_lock, tsan_mutex_pre_unlock, tsan_mutex_post_unlock,
}
use misan.Tsan.Sync.Kept.{
  Keeps, create_found-Keeps, destroy_found-Keeps, lock_found-Keeps, unlock_found-Keeps,
}

-- The clocks of the mutexes after at most `k` calls of the thread 1.
abbrev pub AreEarly : ℕ → (ℕ → Mutex) → Type 0
AreEarly k table = (i : ℕ) → ((table i).vc 1 ≤ k + 1) × ((table i).vc 2 ≡ 0)

-- The thread `self` is the only one so far, with the id 1, and has made at most `k` calls.
pub record IsFirst (self k : ℕ) (s : Tsan) : Type 0 where
  pub unlocked : s.locked ≡ false
  pub known : s.current_tid self ≡ some 1
  pub counted : s.thread_count ≡ 1
  pub strangers : (other : ℕ) → other ≢ self → s.current_tid other ≡ none
  pub tids : (i : ℕ) → (s.shadow i).tid ≤ 1
  pub zeroth : clock_of s 0 0 ≡ 0
  pub own_pos : 0 < clock_of s 1 1
  pub own_le : clock_of s 1 1 ≤ k + 1
  pub unmet : clock_of s 1 2 ≡ 0
  pub mutexes : AreEarly k s.mutexes
  pub room : taken tsan_shadow_entries (shadow_holds s.shadow) ≤ k

pub IsFirst-IsAlone : (self k : ℕ) (s : Tsan) → IsFirst self k s → IsAlone self 1 s
IsFirst-IsAlone self k s v = record {
  unlocked = v.unlocked;
  known = v.known;
  quiet = λ i. elim (Bool-cases ((s.shadow i).tid == 1)) [
    | inl one ↦ inl (ground arith)
    | inr other ↦
        let zero : (s.shadow i).tid ≡ 0 = ground (arith, v.tids i) in inr (rw zero v.zeroth)
  ];
}
