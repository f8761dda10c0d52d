-- ===== src/Tsan/Calls/First/Sequences.antt =====
-- Sequences of calls of the first thread.
use misan.Prelude.{ℕ, suc, ◌+◌, ◌≡◌, ◌<◌, true, false, List, [], ◌∷◌, length, done, arith, refl}
use misan.Common.Platform.{Machine}
use misan.Tsan.Runtime.{
  Tsan, tsan_mutex_find, tsan_get_tid, tsan_func_entry, tsan_func_exit, tsan_read, tsan_write,
}
use misan.Tsan.Calls.{
  Call, func_entry, func_exit, read, write, mutex_create, mutex_destroy, pre_lock, post_lock,
  pre_unlock, post_unlock, perform, perform_all,
}
use misan.Tsan.Sync.{
  tsan_mutex_create, tsan_mutex_destroy, tsan_mutex_pre_lock, tsan_mutex_post_lock,
  tsan_mutex_pre_unlock, tsan_mutex_post_unlock,
}
use misan.Tsan.Sync.Kept.{
  create_found-Keeps, destroy_found-Keeps, lock_found-Keeps, unlock_found-Keeps,
}
use misan.Tsan.Calls.First.{IsFirst}
use misan.Tsan.Calls.First.Access.{access-IsFirst, section-IsFirst}
use misan.Tsan.Calls.First.Clocks.{
  find-AreEarly, early_later, create_found-Clocks, destroy_found-Clocks, lock_found-Clocks,
  unlock_found-Clocks,
}

module _ (fuel : ℕ) (machine : Machine) (self : ℕ) where
  later_IsFirst : (k : ℕ) (s : Tsan) → IsFirst self k s → IsFirst self (k + 1) s
  later_IsFirst k s v = record {
    unlocked = v.unlocked;
    known = v.known;
    counted = v.counted;
    strangers = v.strangers;
    tids = v.tids;
    zeroth = v.zeroth;
    own_pos = v.own_pos;
    own_le = omega (arith, v.own_le);
    unmet = v.unmet;
    mutexes = early_later self k s v s.mutexes v.mutexes;
    room = omega (arith, v.room);
  }

  perform-IsFirst :
      (k : ℕ) (c : Call) (s : Tsan)
      → k < 65535
      → IsFirst self k s
      → (s' : Tsan) × (perform fuel machine self c s ≡ done [] s') × IsFirst self (k + 1) s'
  unfolding perform tsan_func_entry tsan_func_exit tsan_read tsan_write tsan_mutex_create
      tsan_mutex_destroy tsan_mutex_pre_lock tsan_mutex_post_lock tsan_mutex_pre_unlock
      tsan_mutex_post_unlock tsan_get_tid
  perform-IsFirst k func_entry s few v = (s, ground (arith, v), later_IsFirst k s v)
  perform-IsFirst k func_exit s few v = (s, refl, later_IsFirst k s v)
  perform-IsFirst k (read addr) s few v = access-IsFirst fuel machine self k few s addr false v
  perform-IsFirst k (write addr) s few v = access-IsFirst fuel machine self k few s addr true v
  perform-IsFirst k (pre_lock addr) s few v = access-IsFirst fuel machine self k few s addr true v
  perform-IsFirst k (pre_unlock addr) s few v = access-IsFirst fuel machine self k few s addr true v
  perform-IsFirst k (mutex_create addr) s few v =
      let found = tsan_mutex_find s.mutexes addr true in
      let (own, early) =
        create_found-Clocks self k s v found (find-AreEarly k addr true s.mutexes v.mutexes) in
      section-IsFirst fuel machine self k few s _ _ v (create_found-Keeps 1 s found) own early
        (ground (arith, v))
  perform-IsFirst k (mutex_destroy addr) s few v =
      let found = tsan_mutex_find s.mutexes addr false in
      let (own, early) =
        destroy_found-Clocks self k s v found (find-AreEarly k addr false s.mutexes v.mutexes) in
      section-IsFirst fuel machine self k few s _ _ v (destroy_found-Keeps 1 s found) own early
        (ground (arith, v))
  perform-IsFirst k (post_lock addr) s few v =
      let found = tsan_mutex_find s.mutexes addr false in
      let (own, early) =
        lock_found-Clocks self k s v found (find-AreEarly k addr false s.mutexes v.mutexes) in
      section-IsFirst fuel machine self k few s _ _ v (lock_found-Keeps 1 s found) own early
        (ground (arith, v))
  perform-IsFirst k (post_unlock addr) s few v =
      let found = tsan_mutex_find s.mutexes addr false in
      let (own, early) =
        unlock_found-Clocks self k s v found (find-AreEarly k addr false s.mutexes v.mutexes) in
      section-IsFirst fuel machine self k few s _ _ v (unlock_found-Keeps 1 s found) own early
        (ground (arith, v))

  pub perform_all-IsFirst :
      (k : ℕ) (cs : List Call) (s : Tsan)
      → k + length cs < 65536
      → IsFirst self k s
      → (s' : Tsan) × (perform_all fuel machine self cs s ≡ done [] s')
        × IsFirst self (k + length cs) s'
  unfolding perform_all
  perform_all-IsFirst k [] s few v = (s, refl, let e : k ≡ k + 0 = omega arith in rw e at v)
  perform_all-IsFirst k (c ∷ cs) s few v =
      let (s₁, run, v₁) = perform-IsFirst k c s (omega arith) v in
      let (s₂, run₂, v₂) = perform_all-IsFirst (k + 1) cs s₁ (omega arith) v₁ in
      let e : k + 1 + length cs ≡ k + suc (length cs) = omega arith in
      (s₂, rw (run, run₂) refl, rw e at v₂)
