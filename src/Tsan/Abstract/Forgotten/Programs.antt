-- ===== src/Tsan/Abstract/Forgotten/Programs.antt =====
-- Programs end in the same way whatever clocks the entries of the shadow table keep.
use misan.Prelude.{
  ℕ, ◌+◌, Bool, true, false, Option, none, some, List, [], ◌∷◌, ◌≡◌, leb, Exec, done, aborted,
  spinning, fault, after, ◌>>=◌, refl, ap, sym, ◌∙◌, Bool-cases, Option-cases, inl, inr,
}
use misan.Common.Platform.{Machine, drt_spin_lock, drt_spin_unlock}
use misan.Tsan.Clock.{tsan_max_threads}
use misan.Tsan.Runtime.{
  Tsan, Mutex, start_thread, tsan_get_tid, checked_access, tsan_access, tsan_func_entry,
  tsan_func_exit, tsan_read, tsan_write, tsan_mutex_find,
}
use misan.Tsan.Sync.{
  create_found, destroy_found, lock_found, unlock_found, under_lock, tsan_mutex_create,
  tsan_mutex_destroy, tsan_mutex_pre_lock, tsan_mutex_post_lock, tsan_mutex_pre_unlock,
  tsan_mutex_post_unlock,
}
use misan.Tsan.Calls.{
  Call, func_entry, func_exit, read, write, mutex_create, mutex_destroy, pre_lock, post_lock,
  pre_unlock, post_unlock, perform,
}
use misan.Tsan.Abstract.{run}
use misan.Tsan.Abstract.Forgotten.{forget, forgotten, checked_access-forget}

after-forget : (o : List ℕ) (m : Exec Tsan) → forgotten (after o m) ≡ after o (forgotten m)
after-forget o (done p s) = refl
after-forget o (aborted p) = refl
after-forget o (spinning p) = refl
after-forget o (fault p) = refl

-- What does not look at the clocks behind a call.
module _ (f : Tsan → Exec Tsan)
    (blind : (s : Tsan) → forgotten (f s) ≡ forgotten (f (forget s))) where
  bind-forget : (m : Exec Tsan) → forgotten (m >>= f) ≡ forgotten (forgotten m >>= f)
  bind-forget (done o s) =
      after-forget o (f s) ∙ ap (after o) (blind s) ∙ sym (after-forget o (f (forget s)))
  bind-forget (aborted o) = refl
  bind-forget (spinning o) = refl
  bind-forget (fault o) = refl

  then-forget :
      (m m' : Exec Tsan) → forgotten m ≡ forgotten m' → forgotten (m >>= f) ≡ forgotten (m' >>= f)
  then-forget m m' e = bind-forget m ∙ ap (λ k. forgotten (k >>= f)) e ∙ sym (bind-forget m')

-- The same lock is taken before.
spin_lock-forget :
    (held : Bool) (f g : Bool → Exec Tsan)
    → forgotten (f true) ≡ forgotten (g true)
    → forgotten (drt_spin_lock held >>= f) ≡ forgotten (drt_spin_lock held >>= g)
unfolding drt_spin_lock
spin_lock-forget true f g e = refl
spin_lock-forget false f g e =
    after-forget [] (f true) ∙ ap (after []) e ∙ sym (after-forget [] (g true))

under_lock-forget :
    (s : Tsan) (body : Tsan → Tsan)
    → forget (body s) ≡ forget (body (forget s))
    → forgotten (under_lock s body) ≡ forgotten (under_lock (forget s) body)
unfolding under_lock drt_spin_unlock
under_lock-forget s body e =
    spin_lock-forget s.locked _ _ (ap (λ (t : Tsan). done [] (record t { locked = false })) e)

module _ (fuel : ℕ) (machine : Machine) (self : ℕ) (s : Tsan) where
  get_tid-forget :
      (f : ℕ × Tsan → Exec Tsan)
      → ((tid : ℕ) (t : Tsan) → forgotten (f (tid, t)) ≡ forgotten (f (tid, forget t)))
      → forgotten (tsan_get_tid fuel machine self s >>= f)
        ≡ forgotten (tsan_get_tid fuel machine self (forget s) >>= f)
  unfolding start_thread tsan_get_tid
  get_tid-forget f blind = elim (Option-cases (s.current_tid self)) [
    | inr (tid, e) ↦ rw (e, tsan_get_tid) (nothing_before tid s)
    | inl e ↦ elim (Bool-cases (leb tsan_max_threads (s.thread_count + 1))) [
      | inl full ↦ rw (e, full, tsan_get_tid) refl
      | inr room ↦
          rw (e, room, tsan_get_tid) (nothing_before (s.thread_count + 1) (start_thread self s))
    ]
  ]
    where
      nothing_before :
          (tid : ℕ) (t : Tsan)
          → forgotten (after [] (f (tid, t))) ≡ forgotten (after [] (f (tid, forget t)))
      nothing_before tid t =
          after-forget [] (f (tid, t))
          ∙ ap (after []) (blind tid t)
          ∙ sym (after-forget [] (f (tid, forget t)))

  tsan_access-forget :
      (addr : ℕ) (w : Bool)
      → forgotten (tsan_access fuel machine self s addr w)
        ≡ forgotten (tsan_access fuel machine self (forget s) addr w)
  unfolding tsan_access drt_spin_unlock
  tsan_access-forget addr w = get_tid-forget _ (λ tid t. spin_lock-forget t.locked _ _ (
      then-forget (λ s'. done [] (record s' { locked = false })) (λ s'. refl)
        (checked_access fuel machine t tid addr w)
        (checked_access fuel machine (forget t) tid addr w)
        (checked_access-forget fuel machine t tid addr w)))

-- The handlers of mutexes leave the shadow table alone.
module _ (s : Tsan) where
  create_found-forget :
      (r : Option ℕ × (ℕ → Mutex)) → forget (create_found s r) ≡ forget (create_found (forget s) r)
  unfolding create_found
  create_found-forget (none, table) = refl
  create_found-forget (some i, table) = refl

  destroy_found-forget :
      (r : Option ℕ × (ℕ → Mutex))
      → forget (destroy_found s r) ≡ forget (destroy_found (forget s) r)
  unfolding destroy_found
  destroy_found-forget (none, table) = refl
  destroy_found-forget (some i, table) = refl

  lock_found-forget :
      (tid : ℕ) (r : Option ℕ × (ℕ → Mutex))
      → forget (lock_found s tid r) ≡ forget (lock_found (forget s) tid r)
  unfolding lock_found
  lock_found-forget tid (none, table) = refl
  lock_found-forget tid (some i, table) = refl

  unlock_found-forget :
      (tid : ℕ) (r : Option ℕ × (ℕ → Mutex))
      → forget (unlock_found s tid r) ≡ forget (unlock_found (forget s) tid r)
  unfolding unlock_found
  unlock_found-forget tid (none, table) = refl
  unlock_found-forget tid (some i, table) = refl

module _ (fuel : ℕ) (machine : Machine) where
  perform-forget :
      (self : ℕ) (c : Call) (s : Tsan)
      → forgotten (perform fuel machine self c s)
        ≡ forgotten (perform fuel machine self c (forget s))
  unfolding perform tsan_func_entry tsan_func_exit tsan_read tsan_write tsan_mutex_create
      tsan_mutex_destroy tsan_mutex_pre_lock tsan_mutex_post_lock tsan_mutex_pre_unlock
      tsan_mutex_post_unlock
  perform-forget self func_entry s = get_tid-forget fuel machine self s _ (λ tid t. refl)
  perform-forget self func_exit s = refl
  perform-forget self (read addr) s = tsan_access-forget fuel machine self s addr false
  perform-forget self (write addr) s = tsan_access-forget fuel machine self s addr true
  perform-forget self (mutex_create addr) s =
      under_lock-forget s (λ t. create_found t (tsan_mutex_find t.mutexes addr true))
        (create_found-forget s (tsan_mutex_find s.mutexes addr true))
  perform-forget self (mutex_destroy addr) s =
      under_lock-forget s (λ t. destroy_found t (tsan_mutex_find t.mutexes addr false))
        (destroy_found-forget s (tsan_mutex_find s.mutexes addr false))
  perform-forget self (pre_lock addr) s = tsan_access-forget fuel machine self s addr true
  perform-forget self (post_lock addr) s = get_tid-forget fuel machine self s _ (λ tid t.
      under_lock-forget t (λ u. lock_found u tid (tsan_mutex_find u.mutexes addr false))
        (lock_found-forget t tid (tsan_mutex_find t.mutexes addr false)))
  perform-forget self (pre_unlock addr) s = tsan_access-forget fuel machine self s addr true
  perform-forget self (post_unlock addr) s = get_tid-forget fuel machine self s _ (λ tid t.
      under_lock-forget t (λ u. unlock_found u tid (tsan_mutex_find u.mutexes addr false))
        (unlock_found-forget t tid (tsan_mutex_find t.mutexes addr false)))

  -- Whatever clocks the entries of the shadow table keep, calls by any threads end in the same
  -- way, print the same, and leave the same state but for these clocks: they are written and
  -- never read.
  pub run-forget :
      (cs : List (ℕ × Call)) (s : Tsan)
      → forgotten (run fuel machine cs s) ≡ forgotten (run fuel machine cs (forget s))
  unfolding run
  run-forget [] s = refl
  run-forget ((self, c) ∷ cs) s =
      then-forget (run fuel machine cs) (run-forget cs) (perform fuel machine self c s)
        (perform fuel machine self c (forget s)) (perform-forget self c s)
