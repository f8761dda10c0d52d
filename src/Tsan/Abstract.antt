-- ===== src/Tsan/Abstract.antt =====
-- What src/tsan/tsan_rtl.c computes, without tables and locks: the last access to each address and
-- the clock of each live mutex are maps of the address.
pub mod Shadows
pub mod Represents
pub mod Mutexes
pub mod Accesses
pub mod Sections
pub mod Creation
pub mod Runs
pub mod Unordered
pub mod Full
pub mod Forgotten
use misan.Prelude.{
  ℕ, suc, ◌+◌, Bool, true, false, Option, none, some, List, [], ◌∷◌, ◌==◌, ◌&&◌, ◌||◌, not, leb,
  if◌then◌else◌, update, Exec, done, ◌>>=◌, ◌≡◌,
}
use misan.Common.Platform.{Machine}
use misan.Tsan.Clock.{
  Clock, zero_clock, tsan_max_threads, tsan_vc_inc, tsan_vc_join, tsan_vc_happens_before,
}
use misan.Tsan.Runtime.{Tsan}
use misan.Tsan.Calls.{
  Call, func_entry, func_exit, read, write, mutex_create, mutex_destroy, pre_lock, post_lock,
  pre_unlock, post_unlock, perform,
}

-- The ids that threads have and how many there are, the clock of each id, the id and the kind of the
-- last access to an address, and the clock of a mutex.
pub record View : Type 0 where
  pub ids : ℕ → Option ℕ
  pub count : ℕ
  pub clocks : ℕ → Clock
  pub last : ℕ → Option (ℕ × Bool)
  pub mutexes : ℕ → Option Clock

abbrev pub initial : View
initial = record {
  ids = λ self. none;
  count = 0;
  clocks = λ tid. zero_clock;
  last = λ addr. none;
  mutexes = λ addr. none;
}

abbrev pub and_then {ℓ κ} : {A : Type ℓ} {B : Type κ} → Option A → (A → Option B) → Option B
and_then none f = none
and_then (some a) f = f a

-- The id of the thread, which it gets with its first call; there are no ids from 64 on.
unfoldable pub enter : ℕ → View → Option (ℕ × View)
enter self v = elim (v.ids self) [
  | some tid ↦ some (tid, v)
  | none ↦
      if leb tsan_max_threads (v.count + 1)
      then none
      else some (
        v.count + 1,
        record v {
          ids = update v.ids self (some (v.count + 1));
          count = v.count + 1;
          clocks = update v.clocks (v.count + 1) (update zero_clock (v.count + 1) 1);
        },
      )
]

-- The last access was by another thread, one of the two is a write, and neither thread has seen
-- the other one's time.
unfoldable pub races_with : View → Option (ℕ × Bool) → ℕ → Bool → Bool
races_with v none tid is_write = false
races_with v (some (other, was_write)) tid is_write =
    not (other == tid)
    && (is_write || was_write)
    && not (tsan_vc_happens_before (v.clocks other) (v.clocks tid) other)
    && not (tsan_vc_happens_before (v.clocks tid) (v.clocks other) tid)

unfoldable pub access : View → ℕ → ℕ → Bool → Option View
access v tid addr is_write =
    if races_with v (v.last addr) tid is_write
    then none
    else some (record v {
      last = update v.last addr (some (tid, is_write));
      clocks = update v.clocks tid (tsan_vc_inc (v.clocks tid) tid);
    })

unfoldable pub acquire : View → ℕ → ℕ → View
acquire v tid addr = elim (v.mutexes addr) [
  | none ↦ v
  | some vc ↦ record v { clocks = update v.clocks tid (tsan_vc_join (v.clocks tid) vc) }
]

unfoldable pub release : View → ℕ → ℕ → View
release v tid addr = elim (v.mutexes addr) [
  | none ↦ v
  | some vc ↦ record v { mutexes = update v.mutexes addr (some (tsan_vc_inc (v.clocks tid) tid)) }
]

-- A call, or `none` where the program is stopped.
unfoldable pub step : ℕ → Call → View → Option View
step self func_entry v = and_then (enter self v) (λ r. some r.1)
step self func_exit v = some v
step self (read addr) v = and_then (enter self v) (λ r. access r.1 r.0 addr false)
step self (write addr) v = and_then (enter self v) (λ r. access r.1 r.0 addr true)
step self (mutex_create addr) v =
    some (record v { mutexes = update v.mutexes addr (some zero_clock) })
step self (mutex_destroy addr) v = some (record v { mutexes = update v.mutexes addr none })
step self (pre_lock addr) v = and_then (enter self v) (λ r. access r.1 r.0 addr true)
step self (post_lock addr) v = and_then (enter self v) (λ r. some (acquire r.1 r.0 addr))
step self (pre_unlock addr) v = and_then (enter self v) (λ r. access r.1 r.0 addr true)
step self (post_unlock addr) v = and_then (enter self v) (λ r. some (release r.1 r.0 addr))

-- Calls with the threads that make them.
unfoldable pub steps : List (ℕ × Call) → View → Option View
steps [] v = some v
steps ((self, c) ∷ cs) v = and_then (step self c v) (steps cs)

abbrev pub goes_on : Option View → Bool
goes_on none = false
goes_on (some v) = true

unfoldable pub run : ℕ → Machine → List (ℕ × Call) → Tsan → Exec Tsan
run fuel machine [] s = done [] s
run fuel machine ((self, c) ∷ cs) s = perform fuel machine self c s >>= λ s'. run fuel machine cs s'

-- The entries that a call may take in the table of shadows, and in the table of mutexes, with those
-- of the calls behind it.
abbrev pub entries : Call → ℕ → ℕ
entries (read addr) n = suc n
entries (write addr) n = suc n
entries (pre_lock addr) n = suc n
entries (pre_unlock addr) n = suc n
entries _ n = n

abbrev pub creations : Call → ℕ → ℕ
creations (mutex_create addr) n = suc n
creations _ n = n

abbrev pub total : (Call → ℕ → ℕ) → List (ℕ × Call) → ℕ
total f [] = 0
total f ((self, c) ∷ cs) = f c (total f cs)

-- The mutexes that are live after a call.
abbrev pub live_after : (ℕ → Bool) → Call → ℕ → Bool
live_after live (mutex_create addr) = update live addr true
live_after live (mutex_destroy addr) = update live addr false
live_after live _ = live

-- No mutex is created while it is live.
abbrev pub IsFresh : (ℕ → Bool) → Call → Type 0
IsFresh live (mutex_create addr) = live addr ≡ false
IsFresh live _ = Unit

abbrev pub AreFresh : (ℕ → Bool) → List (ℕ × Call) → Type 0
AreFresh live [] = Unit
AreFresh live ((self, c) ∷ cs) = IsFresh live c × AreFresh (live_after live c) cs

-- The static tables as the program starts.
pub record IsInitial (s : Tsan) : Type 0 where
  pub free : s.locked ≡ false
  pub no_threads : s.thread_count ≡ 0
  pub no_ids : (self : ℕ) → s.current_tid self ≡ none
  pub no_ticks : (tid : ℕ) → (s.threads tid).vc ≡ zero_clock
  pub no_entries : (i : ℕ) → ((s.shadow i).tid ≡ 0) × ((s.shadow i).active ≡ false)
  pub no_mutexes : (i : ℕ) → (s.mutexes i).active ≡ false
