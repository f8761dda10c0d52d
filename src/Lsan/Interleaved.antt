-- ===== src/Lsan/Interleaved.antt =====
-- The handlers of src/lsan/lsan_rtl.c, called by any number of threads, an access at a time.
use misan.Prelude.{◌≡◌, true, false, Bool, List, [], done, spinning}
use misan.Common.Platform.{Machine}
use misan.Common.Lock.{run_section}
use misan.Common.Lock.Serial.{Serial, perform}
use misan.Lsan.{Lsan}
use misan.Lsan.Tables
use misan.Lsan.Tables.{Call, disable, enable}

-- The calls that take the lock.
abbrev pub takes_lock : Call → Bool
takes_lock disable = false
takes_lock enable = false
takes_lock c = true

-- A critical section whose accesses, without others between them, do what a call does. Each call
-- captures its own stack trace and time.
pub record IsHandler (body : List (Lsan → Lsan)) : Type 0 where
  pub machine : Machine
  pub handled : Call
  pub locks : takes_lock handled ≡ true
  pub effect :
      (s s' : Lsan) → Tables.perform machine handled s ≡ done [] s' → run_section body s ≡ s'

-- The code of the handler, begun with the lock as it is given, is in the loop of `drt_spin_lock`. A
-- thread that registers or unregisters a block has found `lsan_disabled` off before.
abbrev pub Spins : (body : List (Lsan → Lsan)) → IsHandler body → Lsan → Bool → Type 0
Spins body h s lock =
    Tables.perform h.machine h.handled (record s { locked = lock; disabled = false }) ≡ spinning []

-- What whole calls reach, one after the other.
pub data Calls (s₀ : Lsan) : Lsan → Type 0 where
  no_call : Calls s₀ s₀
  then_call :
      {a b : Lsan} (m : Machine) (c : Call)
      → Calls s₀ a
      → Tables.perform m c a ≡ done [] b
      → Calls s₀ b
