-- ===== src/Tsan/Sync/Transfer.antt =====
-- What a release and a later acquire of one mutex do to the clocks.
use misan.Prelude.{
  [], ℕ, ◌+◌, false, Option, none, some, update, done, ◌>>=◌, if◌then◌else◌, ◌≡◌, ◌≢◌, ◌<◌, ◌==◌,
  max, arith, ap, ◌∙◌, refl, sym, ◌⊎◌, inl, inr, fun_ext, u64,
}
use misan.Common.Platform.{Machine}
use misan.Tsan.Clock.{tsan_vc_inc, tsan_max_threads}
use misan.Tsan.Clock.Join.{tsan_vc_join_lem}
use misan.Tsan.Table.{Slot, found, claimed, nowhere, probe, tsan_max_mutexes, tsan_mutex_index}
use misan.Tsan.Table.Probing.{IsAnswer, probe-IsAnswer}
use misan.Tsan.Runtime.{Tsan, Mutex, clock_of, mutex_holds, tsan_mutex_find, tsan_get_tid}
use misan.Tsan.Sync.{lock_found, unlock_found, tsan_mutex_post_lock, tsan_mutex_post_unlock}

-- Where the walk over the table ends.
unfoldable pub walk : (ℕ → Mutex) → ℕ → Slot
walk table addr =
    probe (mutex_holds table) tsan_max_mutexes addr false tsan_max_mutexes (tsan_mutex_index addr)
      (tsan_mutex_index addr)

pub index-lt : (addr : ℕ) → tsan_mutex_index addr < tsan_max_mutexes
unfolding tsan_mutex_index
index-lt addr = omega arith

walk-IsAnswer :
    (table : ℕ → Mutex) (addr : ℕ)
    → IsAnswer (mutex_holds table) tsan_max_mutexes addr false (walk table addr)
unfolding walk
walk-IsAnswer table addr =
    probe-IsAnswer (mutex_holds table) tsan_max_mutexes addr false (tsan_mutex_index addr)
      (index-lt addr)

find-found :
    (table : ℕ → Mutex) (addr i : ℕ)
    → walk table addr ≡ found i
    → tsan_mutex_find table addr false ≡ (some i, table)
unfolding tsan_mutex_find walk
find-found table addr i e = rw (e, tsan_mutex_find)

find-nowhere :
    (table : ℕ → Mutex) (addr : ℕ)
    → walk table addr ≡ nowhere
    → tsan_mutex_find table addr false ≡ (none, table)
unfolding tsan_mutex_find walk
find-nowhere table addr e = rw (e, tsan_mutex_find)

-- Without `alloc` the search gives an active entry of the address, if there is one in the table, and
-- changes nothing.
pub tsan_mutex_find_lem :
    (table : ℕ → Mutex) (addr : ℕ)
    → ((tsan_mutex_find table addr false ≡ (none, table))
        × ((i : ℕ) → i < tsan_max_mutexes → mutex_holds table i ≢ some addr))
      ⊎ ((i : ℕ) × (tsan_mutex_find table addr false ≡ (some i, table))
          × (i < tsan_max_mutexes)
          × (mutex_holds table i ≡ some addr)
          × (walk table addr ≡ found i))
tsan_mutex_find_lem table addr = go (walk table addr) refl (walk-IsAnswer table addr)
  where
    go :
        (slot : Slot)
        → walk table addr ≡ slot
        → IsAnswer (mutex_holds table) tsan_max_mutexes addr false slot
        → ((tsan_mutex_find table addr false ≡ (none, table))
            × ((i : ℕ) → i < tsan_max_mutexes → mutex_holds table i ≢ some addr))
          ⊎ ((i : ℕ) × (tsan_mutex_find table addr false ≡ (some i, table))
              × (i < tsan_max_mutexes)
              × (mutex_holds table i ≡ some addr)
              × (walk table addr ≡ found i))
    go nowhere e a = inl (find-nowhere table addr e, a.0)
    go (found i) e a = inr (i, find-found table addr i e, a.0, a.1, e)
    go (claimed i) e a = cc a.2

pub walk-again :
    (table table' : ℕ → Mutex) (addr i : ℕ)
    → walk table addr ≡ found i
    → ((j : ℕ) → mutex_holds table' j ≡ mutex_holds table j)
    → walk table' addr ≡ found i
unfolding walk
walk-again table table' addr i at same = rw (fun_ext same) at

-- A table whose slots hold the same addresses gives the same entry.
find-again :
    (table table' : ℕ → Mutex) (addr i : ℕ)
    → tsan_mutex_find table addr false ≡ (some i, table)
    → ((j : ℕ) → mutex_holds table' j ≡ mutex_holds table j)
    → tsan_mutex_find table' addr false ≡ (some i, table')
find-again table table' addr i e same = elim (tsan_mutex_find_lem table addr) [
  | inl absent ↦ cc (ap (λ (r : Option ℕ × (ℕ → Mutex)). r.0) (sym absent.0 ∙ e))
  | inr (j, run, lt, holds, at) ↦
      let eq : j ≡ i = cc (ap (λ (r : Option ℕ × (ℕ → Mutex)). r.0) (sym run ∙ e)) in
      find-found table' addr i (walk-again table table' addr i (at ∙ ap found eq) same)
]

module _ (fuel : ℕ) (machine : Machine) (s : Tsan) (p q a b addr i : ℕ) (free : s.locked ≡ false)
    (is_a : s.current_tid p ≡ some a) (is_b : s.current_tid q ≡ some b) (apart : a ≢ b)
    (live : tsan_mutex_find s.mutexes addr false ≡ (some i, s.mutexes)) where
  -- The state after the thread `p` releases the mutex.
  abbrev pub released : Tsan
  released = record (unlock_found s a (some i, s.mutexes)) { locked = false }

  abbrev pub acquired : Tsan
  acquired = record (lock_found released b (some i, released.mutexes)) { locked = false }

  post_unlock-released : tsan_mutex_post_unlock fuel machine p s addr ≡ done [] released
  unfolding tsan_mutex_post_unlock tsan_get_tid
  post_unlock-released = ground (arith, free, is_a, ap (unlock_found s a) live)

  find-released : tsan_mutex_find released.mutexes addr false ≡ (some i, released.mutexes)
  unfolding unlock_found update
  find-released = find-again s.mutexes released.mutexes addr i live (λ j. ground arith)

  post_lock-acquired : tsan_mutex_post_lock fuel machine q released addr ≡ done [] acquired
  unfolding tsan_mutex_post_lock tsan_get_tid unlock_found
  post_lock-acquired = ground (arith, is_b, ap (lock_found released b) find-released)

  clock-acquired :
      (t : ℕ)
      → t < tsan_max_threads
      → clock_of acquired b t
        ≡ max (clock_of s b t) (if t == a then u64 (clock_of s a a + 1) else clock_of s a t)
  unfolding lock_found unlock_found update tsan_vc_inc
  clock-acquired t h =
      ground (arith, tsan_vc_join_lem (clock_of s b) (tsan_vc_inc (clock_of s a) a) t h)

  -- If two different threads have ids, the lock is free and the mutex is found in the table, a
  -- release by the one and a later acquire by the other return, and raise the second thread's
  -- clock to the first one's, with one more at the first thread's own entry.
  pub post_unlock-post_lock :
      (t : ℕ)
      → t < tsan_max_threads
      → (tsan_mutex_post_unlock fuel machine p s addr
            >>= (λ s'. tsan_mutex_post_lock fuel machine q s' addr)
          ≡ done [] acquired)
        × (clock_of acquired b t
            ≡ max (clock_of s b t) (if t == a then u64 (clock_of s a a + 1) else clock_of s a t))
  post_unlock-post_lock t below =
      (rw (post_unlock-released, post_lock-acquired), clock-acquired t below)
