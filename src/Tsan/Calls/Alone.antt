-- ===== src/Tsan/Calls/Alone.antt =====
-- A program with one thread.
use misan.Prelude.{
  ℕ, ◌≡◌, ◌⊎◌, inl, inr, Bool, true, false, Option, none, some, List, [], ◌∷◌, update, Exec, done,
  ◌>>=◌, arith, refl, ◌∙◌, ap,
}
use misan.Common.Platform.{Machine}
use misan.Tsan.Clock.{tsan_vc_happens_before}
use misan.Tsan.Runtime.{
  Tsan, Shadow, clock_of, tsan_mutex_find, tsan_shadow_get, is_race, record_access, start_thread,
  tsan_get_tid, checked_access, tsan_access, tsan_func_entry, tsan_func_exit, tsan_read, tsan_write,
  tsan_init,
}
use misan.Tsan.Runtime.Entries.{IsEntry, shadow_get-IsEntry}
use misan.Tsan.Runtime.Races.{checked-none, checked-some}
use misan.Tsan.Calls.{
  Call, func_entry, func_exit, read, write, mutex_create, mutex_destroy, pre_lock, post_lock,
  pre_unlock, post_unlock, perform, perform_all,
}
use misan.Tsan.Sync.Kept.{
  Keeps, create_found-Keeps, destroy_found-Keeps, lock_found-Keeps, unlock_found-Keeps,
}
use misan.Tsan.Sync.{
  tsan_mutex_create, tsan_mutex_destroy, tsan_mutex_pre_lock, tsan_mutex_post_lock,
  tsan_mutex_pre_unlock, tsan_mutex_post_unlock,
}

-- The thread `self` has the id `t`, and the threads that the shadow names else have never moved.
pub record IsAlone (self t : ℕ) (s : Tsan) : Type 0 where
  pub unlocked : s.locked ≡ false
  pub known : s.current_tid self ≡ some t
  pub quiet : (i : ℕ) → ((s.shadow i).tid ≡ t) ⊎ (clock_of s (s.shadow i).tid (s.shadow i).tid ≡ 0)

is_race-quiet :
    (s : Tsan) (entry : Shadow) (addr t : ℕ) (w : Bool)
    → (entry.tid ≡ t) ⊎ (clock_of s entry.tid entry.tid ≡ 0)
    → is_race s entry addr t w ≡ false
unfolding is_race tsan_vc_happens_before
is_race-quiet s entry addr t w h = ground arith

module _ (fuel : ℕ) (machine : Machine) (self t : ℕ) where
  record_access-IsAlone :
      (s : Tsan) (addr i : ℕ) (table : ℕ → Shadow) (w : Bool)
      → IsEntry s.shadow addr i table
      → IsAlone self t s
      → IsAlone self t (record_access (record s { shadow = table }) i t w)
  unfolding record_access update
  record_access-IsAlone s addr i table w entry v = record {
    unlocked = v.unlocked;
    known = v.known;
    quiet = λ j. ground (arith, v.quiet j, entry.others j);
  }

  record_access-locked : (s : Tsan) (i : ℕ) (w : Bool) → (record_access s i t w).locked ≡ s.locked
  unfolding record_access
  record_access-locked s i w = refl

  -- An access finds or takes an entry and is recorded there.
  pub checked_access-records :
      (s : Tsan) (addr i : ℕ) (table : ℕ → Shadow) (w : Bool)
      → IsAlone self t s
      → tsan_shadow_get s.shadow addr true ≡ (some i, table)
      → IsEntry s.shadow addr i table
      → checked_access fuel machine s t addr w
        ≡ done [] (record_access (record s { shadow = table }) i t w)
  checked_access-records s addr i table w v e entry = ground (
    arith,
    v,
    checked-some fuel machine s t addr w table i e,
    is_race-quiet s (table i) addr t w,
    entry.same_tid,
    v.quiet i,
  )

  pub tsan_access-records :
      (s : Tsan) (addr i : ℕ) (table : ℕ → Shadow) (w : Bool)
      → IsAlone self t s
      → tsan_shadow_get s.shadow addr true ≡ (some i, table)
      → IsEntry s.shadow addr i table
      → tsan_access fuel machine self s addr w
        ≡ done [] (record_access (record s { shadow = table }) i t w)
  unfolding tsan_access tsan_get_tid
  tsan_access-records s addr i table w v e entry = ground (
    arith,
    v,
    record_access-locked (record s { shadow = table }) i w,
    checked_access-records s addr i table w v e entry,
  )

  pub tsan_access-IsAlone :
      (s : Tsan) (addr : ℕ) (w : Bool)
      → IsAlone self t s
      → (s' : Tsan) × (tsan_access fuel machine self s addr w ≡ done [] s') × IsAlone self t s'
  unfolding tsan_access tsan_get_tid
  tsan_access-IsAlone s addr w v = elim (shadow_get-IsEntry s.shadow addr) [
    | inl e ↦ (s, ground (arith, v, checked-none fuel machine s t addr w s.shadow e), v)
    | inr (i, table, e, entry) ↦ (
      record_access (record s { shadow = table }) i t w,
      tsan_access-records s addr i table w v e entry,
      record_access-IsAlone s addr i table w entry v,
    )
  ]

  Keeps-IsAlone :
      (s s' : Tsan)
      → IsAlone self t s
      → Keeps t s s'
      → IsAlone self t (record s' { locked = false })
  Keeps-IsAlone s s' v k = record {
    unlocked = refl;
    known = ap (λ (f : ℕ → Option ℕ). f self) k.ids ∙ v.known;
    quiet = λ i.
        ground
          (arith, v.quiet i, ap (λ (f : ℕ → Shadow). f i) k.shadows, k.others (s.shadow i).tid);
  }

  section-IsAlone :
      (s s' : Tsan) (m : Exec Tsan)
      → IsAlone self t s
      → Keeps t s s'
      → m ≡ done [] (record s' { locked = false })
      → (s'' : Tsan) × (m ≡ done [] s'') × IsAlone self t s''
  section-IsAlone s s' m v k e = (record s' { locked = false }, e, Keeps-IsAlone s s' v k)

  perform-IsAlone :
      (c : Call) (s : Tsan)
      → IsAlone self t s
      → (s' : Tsan) × (perform fuel machine self c s ≡ done [] s') × IsAlone self t s'
  unfolding perform tsan_func_entry tsan_func_exit tsan_read tsan_write tsan_mutex_create
      tsan_mutex_destroy tsan_mutex_pre_lock tsan_mutex_post_lock tsan_mutex_pre_unlock
      tsan_mutex_post_unlock tsan_get_tid
  perform-IsAlone func_entry s v = (s, ground (arith, v), v)
  perform-IsAlone func_exit s v = (s, refl, v)
  perform-IsAlone (read addr) s v = tsan_access-IsAlone s addr false v
  perform-IsAlone (write addr) s v = tsan_access-IsAlone s addr true v
  perform-IsAlone (pre_lock addr) s v = tsan_access-IsAlone s addr true v
  perform-IsAlone (pre_unlock addr) s v = tsan_access-IsAlone s addr true v
  perform-IsAlone (mutex_create addr) s v =
      section-IsAlone s _ _ v (create_found-Keeps t s (tsan_mutex_find s.mutexes addr true))
        (ground (arith, v))
  perform-IsAlone (mutex_destroy addr) s v =
      section-IsAlone s _ _ v (destroy_found-Keeps t s (tsan_mutex_find s.mutexes addr false))
        (ground (arith, v))
  perform-IsAlone (post_lock addr) s v =
      section-IsAlone s _ _ v (lock_found-Keeps t s (tsan_mutex_find s.mutexes addr false))
        (ground (arith, v))
  perform-IsAlone (post_unlock addr) s v =
      section-IsAlone s _ _ v (unlock_found-Keeps t s (tsan_mutex_find s.mutexes addr false))
        (ground (arith, v))

  perform_all-IsAlone :
      (cs : List Call) (s : Tsan)
      → IsAlone self t s
      → (s' : Tsan) × (perform_all fuel machine self cs s ≡ done [] s') × IsAlone self t s'
  unfolding perform_all
  perform_all-IsAlone [] s v = (s, refl, v)
  perform_all-IsAlone (c ∷ cs) s v =
      let (s₁, run, v₁) = perform-IsAlone c s v in
      let (s₂, run₂, v₂) = perform_all-IsAlone cs s₁ v₁ in (s₂, rw (run, run₂) refl, v₂)

-- The tables before any call.
pub record IsUntouched (s : Tsan) : Type 0 where
  pub free : s.locked ≡ false
  pub no_threads : s.thread_count ≡ 0
  pub no_ids : (self : ℕ) → s.current_tid self ≡ none
  pub no_entries : (i : ℕ) → (s.shadow i).tid ≡ 0
  pub no_ticks : clock_of s 0 0 ≡ 0

tsan_init-IsAlone :
    (fuel : ℕ) (machine : Machine) (self : ℕ) (s : Tsan)
    → IsUntouched s
    → (s' : Tsan) × (tsan_init fuel machine self s ≡ done [] s') × IsAlone self 1 s'
unfolding tsan_init tsan_get_tid start_thread update
tsan_init-IsAlone fuel machine self s v = (
  start_thread self s,
  ground (arith, v, v.no_ids self),
  record {
    unlocked = v.free;
    known = ground (arith, v);
    quiet = λ i. ground (arith, v, v.no_entries i);
  },
)

-- In a program with one thread, whatever it reads, writes and locks, in any order, every call
-- returns and no race is reported, from the tables as they are before any call on.
pub perform_all_alone :
    (fuel : ℕ) (machine : Machine) (self : ℕ) (cs : List Call) (s : Tsan)
    → IsUntouched s
    → (s' : Tsan) × (tsan_init fuel machine self s >>= perform_all fuel machine self cs
        ≡ done [] s')
perform_all_alone fuel machine self cs s v =
    let (s₁, run, v₁) = tsan_init-IsAlone fuel machine self s v in
    let (s₂, run₂, v₂) = perform_all-IsAlone fuel machine self 1 cs s₁ v₁ in
    (s₂, rw (run, run₂) refl)
