-- ===== src/Tsan/Abstract/Sections.antt =====
-- The handlers of mutexes and the steps of the abstract state.
use misan.Prelude.{
  ℕ, true, false, Option, none, some, ◌≡◌, ◌<◌, update, arith, refl, ap, sym, ◌∙◌, update_self,
  update_ne, inl, inr, fun_ext,
}
use native.Mathlib.Decide.{ℕ_discrete}
use mathlib.Core.Path.{subst}
use misan.Common.Platform.{Machine, drt_spin_lock, drt_spin_unlock}
use misan.Tsan.Clock.{Clock, tsan_vc_inc, tsan_vc_join}
use misan.Tsan.Table.{tsan_max_mutexes}
use misan.Tsan.Table.Room.{taken, taken-same}
use misan.Tsan.Runtime.{Tsan, Mutex, clock_of, mutex_holds, tsan_mutex_find, tsan_get_tid}
use misan.Tsan.Sync.{
  destroy_found, lock_found, unlock_found, under_lock, tsan_mutex_destroy, tsan_mutex_post_lock,
  tsan_mutex_post_unlock,
}
use misan.Tsan.Abstract.{View, and_then, enter, acquire, release}
use misan.Tsan.Abstract.Mutexes.{Mutexes, mutex_find-view, put-Mutexes, drop-Mutexes}
use misan.Tsan.Abstract.Represents.{
  Represents, Agrees, Agrees-and_then, clock-update, tsan_get_tid-AgreesOnId,
}

-- A map that is updated with what it has.
update-known : {A : Type 0} (f : ℕ → A) (i : ℕ) (a : A) → f i ≡ a → update f i a ≡ f
unfolding update
update-known f i a e =
    fun_ext (λ j. elim (ℕ_discrete j i) [ yes p ↦ ground (arith, p, e) | no p ↦ ground (arith, p) ])

-- A section returns what its body makes of the state, the lock free.
pub under_lock-Agrees :
    (n c : ℕ) (s : Tsan) (body : Tsan → Tsan) (v : View) (t : Tsan)
    → s.locked ≡ false
    → body s ≡ t
    → Represents (record t { locked = false }) v n c
    → Agrees n c (under_lock s body) (some v)
unfolding under_lock drt_spin_lock drt_spin_unlock
under_lock-Agrees n c s body v t free e rep =
    simp (free, e) (record t { locked = false }, refl, rep)

-- The lock is free, and the table of mutexes is another.
module _ (n c : ℕ) (s : Tsan) (v : View) (rep : Represents s v n c) where
  pub with_mutexes :
      (d : ℕ) (table : ℕ → Mutex) (clocks : ℕ → Option Clock)
      → Mutexes table clocks d
      → Represents
          (record s { mutexes = table; locked = false })
          (record v { mutexes = clocks })
          n
          d
  with_mutexes d table clocks m = record {
    free = refl;
    ids = rep.ids;
    count = rep.count;
    positive = rep.positive;
    clocks = rep.clocks;
    zeroth = rep.zeroth;
    shadows = rep.shadows;
    mutexes = m;
  }

  module _ (addr i : ℕ) (inside : i < tsan_max_mutexes)
      (held : mutex_holds s.mutexes i ≡ some addr) where
    -- The entry of a live mutex, rewritten.
    rewritten :
        (t : Mutex)
        → t.active ≡ true
        → t.addr ≡ (s.mutexes i).addr
        → Mutexes (update s.mutexes i t) (update v.mutexes addr (some t.vc)) c
    rewritten t live same =
        let after : ℕ → Mutex = update s.mutexes i t in
        let at : after i ≡ t = update_self s.mutexes i t in
        let here : mutex_holds after i ≡ some addr = rw (at, live, same) (ground (arith, held)) in
        let kept : taken tsan_max_mutexes (mutex_holds after)
            ≡ taken tsan_max_mutexes (mutex_holds s.mutexes) =
          taken-same tsan_max_mutexes (mutex_holds s.mutexes) (mutex_holds after)
            (λ j _. same_holds t (here ∙ sym held) j) in
        subst (λ (m : Mutex). Mutexes after (update v.mutexes addr (some m.vc)) c) at
          (put-Mutexes s.mutexes v.mutexes c rep.mutexes addr i after inside
            (λ j. update_ne s.mutexes i j t) c here (inl held)
            (omega (arith, rep.mutexes.room, kept)))
      where
        same_holds :
            (t : Mutex)
            → mutex_holds (update s.mutexes i t) i ≡ mutex_holds s.mutexes i
            → (j : ℕ) → mutex_holds (update s.mutexes i t) j ≡ mutex_holds s.mutexes j
        same_holds t e j = elim (ℕ_discrete j i) [
          | yes p ↦ rw p e
          | no p ↦ rw (update_ne s.mutexes i j t p) refl
        ]

    unlock_found-Represents :
        (tid : ℕ)
        → Represents
            (record (unlock_found s tid (some i, s.mutexes)) { locked = false })
            (record v { mutexes = update v.mutexes addr (some (tsan_vc_inc (v.clocks tid) tid)) })
            n
            c
    unfolding unlock_found
    unlock_found-Represents tid = rw (sym (rep.clocks tid)) (
        with_mutexes c _ _ (
          rewritten (record (s.mutexes i) { vc = tsan_vc_inc (clock_of s tid) tid })
            (ground (arith, held)) refl))

    lock_found-Represents :
        v.mutexes addr ≡ some (s.mutexes i).vc
        → (tid : ℕ) → 0 < tid
        → Represents
            (record (lock_found s tid (some i, s.mutexes)) { locked = false })
            (record v {
              clocks = update v.clocks tid (tsan_vc_join (v.clocks tid) (s.mutexes i).vc);
            })
            n
            c
    unfolding lock_found
    lock_found-Represents known tid pos = record {
      free = refl;
      ids = rep.ids;
      count = rep.count;
      positive = rep.positive;
      clocks = λ t.
          clock-update s.threads v.clocks rep.clocks tid _ t
          ∙ ap (λ (k : ℕ → ℕ). update v.clocks tid (tsan_vc_join k (s.mutexes i).vc) t)
              (rep.clocks tid);
      zeroth = unfold update in ground (arith, rep.zeroth);
      shadows = rep.shadows;
      mutexes =
          rw⁻¹ (update-known v.mutexes addr (some (s.mutexes i).vc) known)
            (rewritten (record (s.mutexes i) { owner_tid = some tid }) (ground (arith, held)) refl);
    }

    destroy_found-Represents :
        Represents
          (record (destroy_found s (some i, s.mutexes)) { locked = false })
          (record v { mutexes = update v.mutexes addr none })
          n
          c
    unfolding destroy_found
    destroy_found-Represents =
        let t = record (s.mutexes i) { active = false } in
        with_mutexes c _ _ (
          drop-Mutexes s.mutexes v.mutexes c rep.mutexes addr i (update s.mutexes i t) inside
            (λ j. update_ne s.mutexes i j t) held (rw (update_self s.mutexes i t) refl))

  section :
      (body : Tsan → Tsan) (w : View) (t : Tsan)
      → body s ≡ t
      → Represents (record t { locked = false }) w n c
      → Agrees n c (under_lock s body) (some w)
  section body w t e h = under_lock-Agrees n c s body w t rep.free e h

  -- The search changes nothing where the mutex is not live.
  unchanged : Represents (record s { locked = false }) v n c
  unchanged = with_mutexes c s.mutexes v.mutexes rep.mutexes

  pub tsan_mutex_destroy-Agrees :
      (addr : ℕ)
      → Agrees n c
          (tsan_mutex_destroy s addr)
          (some (record v { mutexes = update v.mutexes addr none }))
  unfolding tsan_mutex_destroy
  tsan_mutex_destroy-Agrees addr = elim (mutex_find-view s.mutexes v.mutexes c rep.mutexes addr) [
    | inl (run, absent) ↦ rw (update-known v.mutexes addr none absent) (
        section (λ t. destroy_found t (tsan_mutex_find t.mutexes addr false)) v
          (destroy_found s (none, s.mutexes)) (ap (destroy_found s) run)
          (unfold destroy_found in unchanged))
    | inr (i, run, inside, held, known) ↦
        section (λ t. destroy_found t (tsan_mutex_find t.mutexes addr false)) _
          (destroy_found s (some i, s.mutexes)) (ap (destroy_found s) run)
          (destroy_found-Represents addr i inside held)
  ]

  acquire-Agrees :
      (addr tid : ℕ)
      → 0 < tid
      → Agrees n c
          (under_lock s (λ t. lock_found t tid (tsan_mutex_find t.mutexes addr false)))
          (some (acquire v tid addr))
  unfolding acquire
  acquire-Agrees addr tid pos = elim (mutex_find-view s.mutexes v.mutexes c rep.mutexes addr) [
    | inl (run, absent) ↦
        section _ _ (lock_found s tid (none, s.mutexes)) (ap (lock_found s tid) run)
          (unfold lock_found in rw (absent, acquire) unchanged)
    | inr (i, run, inside, held, known) ↦
        section _ _ (lock_found s tid (some i, s.mutexes)) (ap (lock_found s tid) run)
          (rw (known, acquire) (lock_found-Represents addr i inside held known tid pos))
  ]

  release-Agrees :
      (addr tid : ℕ)
      → Agrees n c
          (under_lock s (λ t. unlock_found t tid (tsan_mutex_find t.mutexes addr false)))
          (some (release v tid addr))
  unfolding release
  release-Agrees addr tid = elim (mutex_find-view s.mutexes v.mutexes c rep.mutexes addr) [
    | inl (run, absent) ↦
        section _ _ (unlock_found s tid (none, s.mutexes)) (ap (unlock_found s tid) run)
          (unfold unlock_found in rw (absent, release) unchanged)
    | inr (i, run, inside, held, known) ↦
        section _ _ (unlock_found s tid (some i, s.mutexes)) (ap (unlock_found s tid) run)
          (rw (known, release) (unlock_found-Represents addr i inside held tid))
  ]

module _ (fuel : ℕ) (machine : Machine) (self n c : ℕ) (s : Tsan) (v : View)
    (rep : Represents s v n c) (addr : ℕ) where
  pub tsan_mutex_post_lock-Agrees :
      Agrees n c
        (tsan_mutex_post_lock fuel machine self s addr)
        (and_then (enter self v) (λ r. some (acquire r.1 r.0 addr)))
  unfolding tsan_mutex_post_lock
  tsan_mutex_post_lock-Agrees =
      Agrees-and_then n c n c (tsan_get_tid fuel machine self s) (enter self v) _ _
        (tsan_get_tid-AgreesOnId fuel machine self n c s v rep)
        (λ tid s' v' pos rep'. acquire-Agrees n c s' v' rep' addr tid pos)

  pub tsan_mutex_post_unlock-Agrees :
      Agrees n c
        (tsan_mutex_post_unlock fuel machine self s addr)
        (and_then (enter self v) (λ r. some (release r.1 r.0 addr)))
  unfolding tsan_mutex_post_unlock
  tsan_mutex_post_unlock-Agrees =
      Agrees-and_then n c n c (tsan_get_tid fuel machine self s) (enter self v) _ _
        (tsan_get_tid-AgreesOnId fuel machine self n c s v rep)
        (λ tid s' v' pos rep'. release-Agrees n c s' v' rep' addr tid)
