-- ===== src/Tsan/Runtime/Threads.antt =====
-- The thread ids that are handed out.
use misan.Prelude.{
  [], ℕ, ◌+◌, false, none, some, ◌≡◌, ◌≢◌, ◌≤◌, ◌<◌, ◌⊎◌, inl, inr, arith, refl, done, returns,
  update, Option-cases, update_self, update_ne,
}
use misan.Common.Platform.{Machine}
use misan.Common.Printf.Ends.{drt_die-returns}
use misan.Tsan.Runtime.{Tsan, start_thread, tsan_get_tid}

-- At most 63 threads have an id, ids start at 1, no two threads share one, and the shadow names only
-- ids that were handed out (or 0, which no thread has).
pub record IsValid (s : Tsan) : Type 0 where
  pub unlocked : s.locked ≡ false
  pub counted : s.thread_count < 64
  pub handed_out :
      (self tid : ℕ) → s.current_tid self ≡ some tid → (0 < tid) × (tid ≤ s.thread_count)
  pub distinct :
      (self other tid : ℕ)
      → s.current_tid self ≡ some tid
      → s.current_tid other ≡ some tid
      → self ≡ other
  pub shadow_tid : (i : ℕ) → (s.shadow i).tid ≤ s.thread_count

-- The thread has an id, or there is one left.
abbrev pub HasRoom : ℕ → Tsan → Type 0
HasRoom self s = (s.current_tid self ≢ none) ⊎ (s.thread_count < 63)

start_thread-IsValid :
    (self : ℕ) (s : Tsan)
    → IsValid s
    → s.current_tid self ≡ none
    → s.thread_count < 63
    → IsValid (start_thread self s)
unfolding start_thread update
start_thread-IsValid self s v new room = record {
  unlocked = v.unlocked;
  counted = omega arith;
  handed_out = λ o tid e. ground (arith, v.handed_out o tid);
  distinct =
      λ o p tid e f. ground (arith, v.handed_out o tid, v.handed_out p tid, v.distinct o p tid);
  shadow_tid = λ i. omega (arith, v.shadow_tid i);
}

module _ (fuel : ℕ) (machine : Machine) (self : ℕ) (s : Tsan) (valid : IsValid s) where
  -- From a valid state, a thread that has an id, or comes while fewer than 63 ids are handed out,
  -- gets an id from 1 to 63 that it keeps; the ids of the others stay, and the state is valid
  -- again: ids are distinct.
  pub tsan_get_tid-IsValid :
      HasRoom self s
      → (tid : ℕ) × (s' : Tsan) × (tsan_get_tid fuel machine self s ≡ done [] (tid, s'))
        × (0 < tid)
        × (tid < 64)
        × (s'.current_tid self ≡ some tid)
        × ((other : ℕ) → other ≢ self → s'.current_tid other ≡ s.current_tid other)
        × IsValid s'
  unfolding tsan_get_tid
  tsan_get_tid-IsValid room = elim (Option-cases (s.current_tid self)) [
    | inr (tid, e) ↦ (
      tid,
      s,
      ground (arith, e),
      (valid.handed_out self tid e).0,
      omega (arith, valid.handed_out self tid e, valid.counted),
      e,
      λ other ne. refl,
      valid,
    )
    | inl e ↦
        let few : s.thread_count < 63 = ground (arith, room) in
        (
          s.thread_count + 1,
          start_thread self s,
          ground (arith, e, few),
          omega arith,
          omega arith,
          unfold start_thread in update_self s.current_tid self (some (s.thread_count + 1)),
          λ other ne.
              unfold start_thread in
              update_ne s.current_tid self other (some (s.thread_count + 1)) ne,
          start_thread-IsValid self s valid e few,
        )
  ]

  -- From a valid state with 63 ids handed out a thread without an id does not get one: the
  -- program dies.
  pub tsan_get_tid-full :
      s.current_tid self ≡ none
      → s.thread_count ≡ 63
      → returns (tsan_get_tid fuel machine self s) ≡ false
  unfolding tsan_get_tid
  tsan_get_tid-full new full =
      ground (arith, drt_die-returns (ℕ × Tsan) fuel "TSan: too many threads" [])
