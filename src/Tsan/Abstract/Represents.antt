-- ===== src/Tsan/Abstract/Represents.antt =====
-- When the state of the runtime stands for an abstract one, and when a call does what a step does.
use misan.Prelude.{
  ℕ, suc, ◌+◌, ◌==◌, Bool, true, false, Option, none, some, ◌≡◌, ◌<◌, leb, [], update, Exec, done,
  ◌>>=◌, returns, returns-stopped, after-nil, arith, refl, ◌∙◌, Option-cases, Bool-cases, inl, inr,
}
use misan.Common.Platform.{Machine}
use misan.Common.Printf.Ends.{drt_die-returns}
use misan.Tsan.Clock.{tsan_max_threads, Clock, zero_clock}
use misan.Tsan.Runtime.{Tsan, Thread, Shadow, clock_of, start_thread, tsan_get_tid}
use misan.Tsan.Abstract.{View, and_then, enter}
use misan.Tsan.Abstract.Shadows.{Shadows}
use misan.Tsan.Abstract.Mutexes.{Mutexes}

-- With `n` accesses and `c` creations of mutexes to come.
pub record Represents (s : Tsan) (v : View) (n c : ℕ) : Type 0 where
  pub free : s.locked ≡ false
  pub ids : (self : ℕ) → s.current_tid self ≡ v.ids self
  pub count : s.thread_count ≡ v.count
  pub positive : (self tid : ℕ) → v.ids self ≡ some tid → 0 < tid
  pub clocks : (tid : ℕ) → clock_of s tid ≡ v.clocks tid
  pub zeroth : v.clocks 0 0 ≡ 0
  pub shadows : Shadows s.shadow v.last n
  pub mutexes : Mutexes s.mutexes v.mutexes c

pub Shadows-less :
    (table : ℕ → Shadow) (last : ℕ → Option (ℕ × Bool)) (n : ℕ)
    → Shadows table last (suc n)
    → Shadows table last n
Shadows-less table last n h = record {
  idle = h.idle;
  known = h.known;
  recorded = h.recorded;
  findable = h.findable;
  room = omega (arith, h.room);
}

-- The clocks of an updated table of threads.
pub clock-update :
    (threads : ℕ → Thread) (clocks : ℕ → Clock)
    → ((tid : ℕ) → (threads tid).vc ≡ clocks tid)
    → (i : ℕ) (t : Thread) (tid : ℕ) → (update threads i t tid).vc ≡ update clocks i t.vc tid
unfolding update
clock-update threads clocks same i t tid = elim (Bool-cases (tid == i)) [
  | inl e ↦ rw e refl
  | inr e ↦ rw e (same tid)
]

-- A call that returns the state of the step, or does not return where there is no step.
abbrev pub Agrees : ℕ → ℕ → Exec Tsan → Option View → Type 0
Agrees n c m none = returns m ≡ false
Agrees n c m (some v) = (s : Tsan) × (m ≡ done [] s) × Represents s v n c

abbrev pub AgreesOnId : ℕ → ℕ → Exec (ℕ × Tsan) → Option (ℕ × View) → Type 0
AgreesOnId n c m none = returns m ≡ false
AgreesOnId n c m (some (tid, v)) =
    (s : Tsan) × (m ≡ done [] (tid, s)) × (0 < tid) × Represents s v n c

-- What goes on from the id agrees if it does from every id.
pub Agrees-and_then :
    (n c k d : ℕ) (m : Exec (ℕ × Tsan)) (r : Option (ℕ × View)) (f : ℕ × Tsan → Exec Tsan)
    (g : ℕ × View → Option View)
    → AgreesOnId n c m r
    → ((tid : ℕ) (s : Tsan) (v : View)
        → 0 < tid
        → Represents s v n c
        → Agrees k d (f (tid, s)) (g (tid, v)))
    → Agrees k d (m >>= f) (and_then r g)
Agrees-and_then n c k d m none f g stopped on = returns-stopped m f stopped
Agrees-and_then n c k d m (some (tid, v)) f g (s, e, pos, rep) on =
    rw (e, after-nil (f (tid, s))) (on tid s v pos rep)

module _ (fuel : ℕ) (machine : Machine) (self n c : ℕ) (s : Tsan) (v : View)
    (rep : Represents s v n c) where
  -- The next id, with the thread's own time at 1.
  started : View
  started = record v {
    ids = update v.ids self (some (v.count + 1));
    count = v.count + 1;
    clocks = update v.clocks (v.count + 1) (update zero_clock (v.count + 1) 1);
  }

  started-clocks : (tid : ℕ) → clock_of (start_thread self s) tid ≡ started.clocks tid
  unfolding started start_thread
  started-clocks tid =
      clock-update s.threads v.clocks rep.clocks (s.thread_count + 1) _ tid ∙ rw rep.count refl

  started-Represents : Represents (start_thread self s) started n c
  unfolding started start_thread update
  started-Represents = record {
    free = rep.free;
    ids = λ other. ground (arith, rep.ids other, rep.count);
    count = omega (arith, rep.count);
    positive = λ other tid e. ground (arith, e, rep.positive other tid);
    clocks = started-clocks;
    zeroth = ground (arith, rep.zeroth);
    shadows = rep.shadows;
    mutexes = rep.mutexes;
  }

  get_tid-known :
      (tid : ℕ)
      → v.ids self ≡ some tid
      → (tsan_get_tid fuel machine self s ≡ done [] (tid, s)) × (enter self v ≡ some (tid, v))
  unfolding tsan_get_tid enter
  get_tid-known tid e = (ground (arith, e, rep.ids self), ground (arith, e))

  get_tid-new :
      v.ids self ≡ none
      → leb tsan_max_threads (v.count + 1) ≡ false
      → (tsan_get_tid fuel machine self s ≡ done [] (v.count + 1, start_thread self s))
        × (enter self v ≡ some (v.count + 1, started))
  unfolding tsan_get_tid enter started
  get_tid-new e room = (ground (arith, e, room, rep.ids self, rep.count), ground (arith, e, room))

  get_tid-full :
      v.ids self ≡ none
      → leb tsan_max_threads (v.count + 1) ≡ true
      → (returns (tsan_get_tid fuel machine self s) ≡ false) × (enter self v ≡ none)
  unfolding tsan_get_tid enter
  get_tid-full e full = (
    ground (
      arith,
      e,
      full,
      rep.ids self,
      rep.count,
      drt_die-returns (ℕ × Tsan) fuel "TSan: too many threads" [],
    ),
    ground (arith, e, full),
  )

  -- A thread has got the id of the abstract state, or both stop at the 64th.
  pub tsan_get_tid-AgreesOnId : AgreesOnId n c (tsan_get_tid fuel machine self s) (enter self v)
  tsan_get_tid-AgreesOnId = elim (Option-cases (v.ids self)) [
    | inr (tid, e) ↦
        let (run, entered) = get_tid-known tid e in
        rw entered (s, run, rep.positive self tid e, rep)
    | inl e ↦ elim (Bool-cases (leb tsan_max_threads (v.count + 1))) [
      | inl full ↦ let (stopped, entered) = get_tid-full e full in rw entered stopped
      | inr room ↦
          let (run, entered) = get_tid-new e room in
          rw entered (start_thread self s, run, omega arith, started-Represents)
    ]
  ]
