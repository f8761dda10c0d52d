-- ===== src/Tsan/Sync.antt =====
-- src/tsan/tsan_rtl.c, the handlers of mutexes.
pub mod Transfer
pub mod Kept
use misan.Prelude.{
  ℕ, Bool, true, false, Option, none, some, update, Exec, done, ◌>>=◌, ◌>>◌, pure, if◌then◌else◌,
  spinning,
}
use misan.Common.Platform.{Machine, drt_spin_lock, drt_spin_unlock}
use misan.Tsan.Clock.{Clock, zero_clock, tsan_vc_inc, tsan_vc_join}
use misan.Tsan.Runtime.{Tsan, Mutex, Thread, clock_of, tsan_mutex_find, tsan_get_tid, tsan_access}

-- What each handler does with the result of `tsan_mutex_find`; a null result changes nothing more.
unfoldable pub create_found : Tsan → Option ℕ × (ℕ → Mutex) → Tsan
create_found s (none, table) = record s { mutexes = table }
create_found s (some i, table) = record s {
  mutexes = update table i (record (table i) { owner_tid = none; vc = zero_clock });
}

unfoldable pub destroy_found : Tsan → Option ℕ × (ℕ → Mutex) → Tsan
destroy_found s (none, table) = record s { mutexes = table }
destroy_found s (some i, table) = record s {
  mutexes = update table i (record (table i) { active = false });
}

-- Acquire: the mutex's clock joins the thread's.
unfoldable pub lock_found : Tsan → ℕ → Option ℕ × (ℕ → Mutex) → Tsan
lock_found s tid (none, table) = record s { mutexes = table }
lock_found s tid (some i, table) = record s {
  threads =
      update s.threads tid
        (record (s.threads tid) { vc = tsan_vc_join (clock_of s tid) (table i).vc });
  mutexes = update table i (record (table i) { owner_tid = some tid });
}

-- Release: the thread's clock is copied, and the copy is incremented.
unfoldable pub unlock_found : Tsan → ℕ → Option ℕ × (ℕ → Mutex) → Tsan
unlock_found s tid (none, table) = record s { mutexes = table }
unlock_found s tid (some i, table) = record s {
  mutexes = update table i (record (table i) { vc = tsan_vc_inc (clock_of s tid) tid });
}

-- A section under `tsan_lock`.
unfoldable pub under_lock : Tsan → (Tsan → Tsan) → Exec Tsan
unfolding drt_spin_lock drt_spin_unlock
under_lock s body = do
  held ← drt_spin_lock s.locked
  released ← drt_spin_unlock held
  pure (record (body s) { locked = released })

unfoldable pub tsan_mutex_create : Tsan → ℕ → Exec Tsan
unfolding under_lock
tsan_mutex_create s addr = under_lock s (λ t. create_found t (tsan_mutex_find t.mutexes addr true))

unfoldable pub tsan_mutex_destroy : Tsan → ℕ → Exec Tsan
unfolding under_lock
tsan_mutex_destroy s addr =
    under_lock s (λ t. destroy_found t (tsan_mutex_find t.mutexes addr false))

module _ (fuel : ℕ) (machine : Machine) (self : ℕ) where
  unfoldable pub tsan_mutex_pre_lock : Tsan → ℕ → Exec Tsan
  tsan_mutex_pre_lock s addr = tsan_access fuel machine self s addr true

  unfoldable pub tsan_mutex_post_lock : Tsan → ℕ → Exec Tsan
  unfolding under_lock
  tsan_mutex_post_lock s addr = do
    (tid, s₁) ← tsan_get_tid fuel machine self s
    under_lock s₁ (λ t. lock_found t tid (tsan_mutex_find t.mutexes addr false))

  unfoldable pub tsan_mutex_pre_unlock : Tsan → ℕ → Exec Tsan
  tsan_mutex_pre_unlock s addr = tsan_access fuel machine self s addr true

  unfoldable pub tsan_mutex_post_unlock : Tsan → ℕ → Exec Tsan
  unfolding under_lock
  tsan_mutex_post_unlock s addr = do
    (tid, s₁) ← tsan_get_tid fuel machine self s
    under_lock s₁ (λ t. unlock_found t tid (tsan_mutex_find t.mutexes addr false))
