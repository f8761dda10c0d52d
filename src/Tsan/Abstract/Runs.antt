-- ===== src/Tsan/Abstract/Runs.antt =====
-- The runtime stops a program exactly where the abstract state has no next step.
use misan.Prelude.{
  ℕ, ◌+◌, Bool, true, false, Option, none, some, List, [], ◌∷◌, leb, ◌≡◌, ◌≤◌, update, Exec, ◌>>=◌,
  returns, returns-stopped, after-nil, arith, refl, sym, ◌∙◌, Option-cases, Bool-cases, inl, inr,
}
use misan.Common.Platform.{Machine}
use misan.Tsan.Clock.{tsan_max_threads}
use misan.Tsan.Runtime.{
  Tsan, tsan_get_tid, tsan_func_entry, tsan_func_exit, tsan_read, tsan_write, shadow_holds,
  mutex_holds,
}
use misan.Tsan.Sync.{tsan_mutex_pre_lock, tsan_mutex_pre_unlock}
use misan.Tsan.Calls.{
  Call, func_entry, func_exit, read, write, mutex_create, mutex_destroy, pre_lock, post_lock,
  pre_unlock, post_unlock, perform,
}
use misan.Tsan.Table.{tsan_shadow_entries, tsan_max_mutexes}
use misan.Tsan.Table.Room.{taken-empty}
use misan.Tsan.Abstract.{
  View, initial, and_then, enter, access, acquire, release, races_with, step, steps, goes_on, run,
  entries, creations, total, live_after, IsFresh, AreFresh, IsInitial,
}
use misan.Tsan.Abstract.Represents.{Represents, Agrees, Agrees-and_then, tsan_get_tid-AgreesOnId}
use misan.Tsan.Abstract.Accesses.{tsan_access-Agrees}
use misan.Tsan.Abstract.Creation.{tsan_mutex_create-Agrees}
use misan.Tsan.Abstract.Sections.{
  tsan_mutex_destroy-Agrees, tsan_mutex_post_lock-Agrees, tsan_mutex_post_unlock-Agrees,
}

-- A mutex that is not live has no clock.
abbrev Follows : (ℕ → Bool) → Option View → Type 0
Follows live none = Unit
Follows live (some v) = (addr : ℕ) → live addr ≡ false → v.mutexes addr ≡ none

module _ (live : ℕ → Bool) (v : View) (follows : Follows live (some v)) where
  enter-Follows :
      (self : ℕ) (f : ℕ × View → Option View)
      → ((tid : ℕ) (u : View) → Follows live (some u) → Follows live (f (tid, u)))
      → Follows live (and_then (enter self v) f)
  unfolding enter
  enter-Follows self f on = elim (Option-cases (v.ids self)) [
    | inr (tid, e) ↦ rw (e, enter) (on tid v follows)
    | inl e ↦ elim (Bool-cases (leb tsan_max_threads (v.count + 1))) [
      | inl full ↦ rw (e, full, enter) tt
      | inr room ↦ rw (e, room, enter) (on (v.count + 1) _ follows)
    ]
  ]

  access-Follows : (tid addr : ℕ) (w : Bool) → Follows live (access v tid addr w)
  unfolding access
  access-Follows tid addr w = elim (Bool-cases (races_with v (v.last addr) tid w)) [
    | inl race ↦ rw race tt
    | inr clear ↦ rw clear follows
  ]

  acquire-Follows : (tid addr : ℕ) → Follows live (some (acquire v tid addr))
  unfolding acquire
  acquire-Follows tid addr = elim (Option-cases (v.mutexes addr)) [
    | inl e ↦ rw (e, acquire) follows
    | inr (vc, e) ↦ rw (e, acquire) follows
  ]

  release-Follows : (tid addr : ℕ) → Follows live (some (release v tid addr))
  unfolding release update
  release-Follows tid addr = λ other off. ground (arith, follows other off)

step-Follows :
    (live : ℕ → Bool) (self : ℕ) (c : Call) (v : View)
    → Follows live (some v)
    → Follows (live_after live c) (step self c v)
unfolding step update
step-Follows live self func_entry v h = enter-Follows live v h self _ (λ tid u k. k)
step-Follows live self func_exit v h = h
step-Follows live self (read addr) v h =
    enter-Follows live v h self _ (λ tid u k. access-Follows live u k tid addr false)
step-Follows live self (write addr) v h =
    enter-Follows live v h self _ (λ tid u k. access-Follows live u k tid addr true)
step-Follows live self (mutex_create addr) v h = λ other off. ground (arith, h other)
step-Follows live self (mutex_destroy addr) v h = λ other off. ground (arith, h other)
step-Follows live self (pre_lock addr) v h =
    enter-Follows live v h self _ (λ tid u k. access-Follows live u k tid addr true)
step-Follows live self (post_lock addr) v h =
    enter-Follows live v h self _ (λ tid u k. acquire-Follows live u k tid addr)
step-Follows live self (pre_unlock addr) v h =
    enter-Follows live v h self _ (λ tid u k. access-Follows live u k tid addr true)
step-Follows live self (post_unlock addr) v h =
    enter-Follows live v h self _ (λ tid u k. release-Follows live u k tid addr)

module _ (fuel : ℕ) (machine : Machine) where
  -- A call with room for the entries that it may take.
  perform-Agrees :
      (live : ℕ → Bool) (self : ℕ) (c : Call) (n k : ℕ) (s : Tsan) (v : View)
      → Represents s v (entries c n) (creations c k)
      → Follows live (some v)
      → IsFresh live c
      → Agrees n k (perform fuel machine self c s) (step self c v)
  unfolding perform step tsan_func_entry tsan_func_exit tsan_read tsan_write tsan_mutex_pre_lock
      tsan_mutex_pre_unlock
  perform-Agrees live self func_entry n k s v rep h fresh =
      Agrees-and_then n k n k (tsan_get_tid fuel machine self s) (enter self v) _ _
        (tsan_get_tid-AgreesOnId fuel machine self n k s v rep)
        (λ tid s' v' pos rep'. (s', refl, rep'))
  perform-Agrees live self func_exit n k s v rep h fresh = (s, refl, rep)
  perform-Agrees live self (read addr) n k s v rep h fresh =
      tsan_access-Agrees fuel machine self n k s v addr false rep
  perform-Agrees live self (write addr) n k s v rep h fresh =
      tsan_access-Agrees fuel machine self n k s v addr true rep
  perform-Agrees live self (mutex_create addr) n k s v rep h fresh =
      tsan_mutex_create-Agrees n k s v rep addr (h addr fresh)
  perform-Agrees live self (mutex_destroy addr) n k s v rep h fresh =
      tsan_mutex_destroy-Agrees n k s v rep addr
  perform-Agrees live self (pre_lock addr) n k s v rep h fresh =
      tsan_access-Agrees fuel machine self n k s v addr true rep
  perform-Agrees live self (post_lock addr) n k s v rep h fresh =
      tsan_mutex_post_lock-Agrees fuel machine self n k s v rep addr
  perform-Agrees live self (pre_unlock addr) n k s v rep h fresh =
      tsan_access-Agrees fuel machine self n k s v addr true rep
  perform-Agrees live self (post_unlock addr) n k s v rep h fresh =
      tsan_mutex_post_unlock-Agrees fuel machine self n k s v rep addr

  -- What goes on from the state agrees if it does from every state.
  returns-and_then :
      (n k : ℕ) (live : ℕ → Bool) (m : Exec Tsan) (r : Option View) (f : Tsan → Exec Tsan)
      (g : View → Option View)
      → Agrees n k m r
      → Follows live r
      → ((s : Tsan) (v : View)
          → Represents s v n k
          → Follows live (some v)
          → returns (f s) ≡ goes_on (g v))
      → returns (m >>= f) ≡ goes_on (and_then r g)
  returns-and_then n k live m none f g stopped h on = returns-stopped m f stopped
  returns-and_then n k live m (some v) f g (s, e, rep) h on = rw (e, after-nil (f s)) (on s v rep h)

  returns-run :
      (cs : List (ℕ × Call)) (live : ℕ → Bool) (s : Tsan) (v : View)
      → Represents s v (total entries cs) (total creations cs)
      → Follows live (some v)
      → AreFresh live cs
      → returns (run fuel machine cs s) ≡ goes_on (steps cs v)
  unfolding run steps
  returns-run [] live s v rep h fresh = refl
  returns-run ((self, c) ∷ cs) live s v rep h (now, later) =
      let n = total entries cs in
      let k = total creations cs in
      returns-and_then n k (live_after live c) (perform fuel machine self c s) (step self c v) _ _
        (perform-Agrees live self c n k s v rep h now) (step-Follows live self c v h)
        (λ s' v' rep' h'. returns-run cs (live_after live c) s' v' rep' h' later)

  module _ (cs : List (ℕ × Call)) (s : Tsan) (start : IsInitial s)
      (shadow_room : total entries cs ≤ tsan_shadow_entries)
      (mutex_room : total creations cs ≤ tsan_max_mutexes) where
    idle : (i : ℕ) → shadow_holds s.shadow i ≡ none
    idle i = ground (arith, start.no_entries i)

    unused : (i : ℕ) → mutex_holds s.mutexes i ≡ none
    unused i = ground (arith, start.no_mutexes i)

    initial-Represents : Represents s initial (total entries cs) (total creations cs)
    initial-Represents = record {
      free = start.free;
      ids = start.no_ids;
      count = start.no_threads;
      positive = λ self tid e. cc e;
      clocks = start.no_ticks;
      zeroth = refl;
      shadows = record {
        idle = λ i off. (start.no_entries i).0;
        known = λ i a lt e. cc (sym (idle i) ∙ e);
        recorded = λ a h. absurd (h refl);
        findable = λ i a lt e. cc (sym (idle i) ∙ e);
        room = omega (arith, taken-empty tsan_shadow_entries (shadow_holds s.shadow) idle);
      };
      mutexes = record {
        known = λ i a lt e. cc (sym (unused i) ∙ e);
        recorded = λ a h. absurd (h refl);
        findable = λ i a lt e. cc (sym (unused i) ∙ e);
        room = omega (arith, taken-empty tsan_max_mutexes (mutex_holds s.mutexes) unused);
      };
    }

    -- From the static tables as a program starts, whatever threads make which calls in which
    -- order, the calls all return exactly if the abstract state goes through them without a race
    -- and without a 64th thread, where at most 65536 of them are accesses or tests of locks, at
    -- most 1024 mutexes are created, and none is created while it is live.
    pub run-steps :
        AreFresh (λ addr. false) cs → returns (run fuel machine cs s) ≡ goes_on (steps cs initial)
    run-steps fresh =
        returns-run cs (λ addr. false) s initial initial-Represents (λ addr off. refl) fresh
