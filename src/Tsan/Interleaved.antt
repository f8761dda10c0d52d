-- ===== src/Tsan/Interleaved.antt =====
-- The handlers of src/tsan/tsan_rtl.c, called by any number of threads, an access at a time.
use misan.Prelude.{
  ℕ, Bool, true, false, Option, none, some, List, [], ◌≡◌, Exec, done, aborted, spinning, fault,
}
use misan.Common.Platform.{Machine}
use misan.Common.Lock.{run_section}
use misan.Common.Lock.Serial.{Serial}
use misan.Tsan.Runtime.{Tsan}
use misan.Tsan.Calls.{Call, func_entry, func_exit, perform}

-- The state that a call returns, or `none` where the program is stopped.
abbrev pub outcome : Exec Tsan → Option Tsan
outcome (done o s) = some s
outcome (aborted o) = none
outcome (spinning o) = none
outcome (fault o) = none

-- The calls that take the lock.
abbrev pub takes_lock : Call → Bool
takes_lock func_entry = false
takes_lock func_exit = false
takes_lock c = true

-- Whole calls, one after the other, until the program is stopped.
pub data Runs (s₀ : Tsan) : Option Tsan → Type 0 where
  no_call : Runs s₀ (some s₀)
  then_call :
      {a : Tsan} (fuel : ℕ) (machine : Machine) (self : ℕ) (c : Call)
      → Runs s₀ (some a)
      → Runs s₀ (outcome (perform fuel machine self c a))

-- The threads that have an id call the handlers.
module _ (ids : ℕ → Option ℕ) where
  -- A critical section whose accesses, without others between them, do what a call does while the
  -- program is not stopped. Each call captures its own stack trace.
  pub record IsHandler (body : List (Option Tsan → Option Tsan)) : Type 0 where
    pub fuel : ℕ
    pub machine : Machine
    pub self : ℕ
    pub tid : ℕ
    pub handled : Call
    pub known : ids self ≡ some tid
    pub locks : takes_lock handled ≡ true
    pub effect :
        (s : Tsan)
        → s.locked ≡ false
        → s.current_tid ≡ ids
        → run_section body (some s) ≡ outcome (perform fuel machine self handled s)
    pub halted : run_section body none ≡ none

  -- The code of the handler, begun with the lock as it is given, is in the loop of `drt_spin_lock`; the
  -- thread reads its own id before. Nothing is entered in a stopped program while the lock is taken.
  abbrev pub Spins :
      (body : List (Option Tsan → Option Tsan)) → IsHandler body → Option Tsan → Bool → Type 0
  Spins body h none lock = lock ≡ true
  Spins body h (some s) lock =
      perform h.fuel h.machine h.self h.handled (record s { locked = lock; current_tid = ids })
      ≡ spinning []

  abbrev pub IsSettled : Option Tsan → Type 0
  IsSettled none = Unit
  IsSettled (some s) = (s.locked ≡ false) × (s.current_tid ≡ ids)

  module _ (fuel : ℕ) (machine : Machine) (self tid : ℕ) (known : ids self ≡ some tid)
      (t : Tsan) where
    abbrev held_up : Tsan
    held_up = record t { locked = true; current_tid = ids }
