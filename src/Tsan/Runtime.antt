-- ===== src/Tsan/Runtime.antt =====
-- src/tsan/tsan_rtl.c, the state and the handlers. `self` names the operating system's thread that
-- makes the call; its `tsan_current_tid` is `none` while it is -1.
pub mod Threads
pub mod Ids
pub mod Entries
pub mod Races
use misan.Prelude.{
  ℕ, suc, zero, ◌+◌, Bool, true, false, Option, none, some, ◌==◌, if◌then◌else◌, List, [], ◌∷◌, leb,
  ◌&&◌, ◌||◌, not, update, Exec, ◌>>=◌, ◌>>◌, pure, abort, literal,
}
use misan.Common.Printf.{word, text, drt_printf, drt_die}
use misan.Common.Platform.{
  Machine, drt_arch_capture_stack_trace, drt_print_stack_trace, drt_spin_lock, drt_spin_unlock,
}
use misan.Tsan.Clock.{Clock, zero_clock, tsan_max_threads, tsan_vc_inc, tsan_vc_happens_before}
use misan.Tsan.Table.{
  found, claimed, nowhere, probe, tsan_shadow_entries, tsan_max_mutexes, tsan_shadow_hash,
  tsan_mutex_index,
}

pub record Thread : Type 0 where
  pub tid : ℕ
  pub vc : Clock
  pub active : Bool

pub record Shadow : Type 0 where
  pub addr : ℕ
  pub vc : Clock
  pub tid : ℕ
  pub is_write : Bool
  pub active : Bool

pub record Mutex : Type 0 where
  pub addr : ℕ
  pub vc : Clock
  pub owner_tid : Option ℕ
  pub active : Bool

pub record Tsan : Type 0 where
  pub threads : ℕ → Thread
  pub shadow : ℕ → Shadow
  pub mutexes : ℕ → Mutex
  pub thread_count : ℕ
  pub current_tid : ℕ → Option ℕ
  pub locked : Bool

abbrev pub clock_of : Tsan → ℕ → Clock
clock_of s tid = (s.threads tid).vc

-- The address that an active entry has.
abbrev pub shadow_holds : (ℕ → Shadow) → ℕ → Option ℕ
shadow_holds table i = if (table i).active then some (table i).addr else none

abbrev pub mutex_holds : (ℕ → Mutex) → ℕ → Option ℕ
mutex_holds table i = if (table i).active then some (table i).addr else none

unfoldable pub tsan_shadow_get : (ℕ → Shadow) → ℕ → Bool → Option ℕ × (ℕ → Shadow)
tsan_shadow_get table addr alloc_if_missing =
    elim (probe (shadow_holds table) tsan_shadow_entries addr alloc_if_missing tsan_shadow_entries
      (tsan_shadow_hash addr) (tsan_shadow_hash addr)) [
        | found i ↦ (some i, table)
        | claimed i ↦ (some i, update table i (record (table i) { addr = addr; active = true }))
        | nowhere ↦ (none, table)
      ]

unfoldable pub tsan_mutex_find : (ℕ → Mutex) → ℕ → Bool → Option ℕ × (ℕ → Mutex)
tsan_mutex_find table addr alloc =
    elim (probe (mutex_holds table) tsan_max_mutexes addr alloc tsan_max_mutexes
      (tsan_mutex_index addr) (tsan_mutex_index addr)) [
        | found i ↦ (some i, table)
        | claimed i ↦ (
          some i,
          update table i (record (table i) { addr = addr; active = true; vc = zero_clock }),
        )
        | nowhere ↦ (none, table)
      ]

-- The test of `tsan_access` for a race between an entry and an access by `tid`.
unfoldable pub is_race : Tsan → Shadow → ℕ → ℕ → Bool → Bool
unfolding tsan_vc_happens_before
is_race s shadow addr tid is_write =
    (shadow.active && shadow.addr == addr)
    && not (shadow.tid == tid)
    && (is_write || shadow.is_write)
    && not (tsan_vc_happens_before (clock_of s shadow.tid) (clock_of s tid) shadow.tid)
    && not (tsan_vc_happens_before (clock_of s tid) (clock_of s shadow.tid) tid)

-- The update of the entry and of the thread's clock.
unfoldable pub record_access : Tsan → ℕ → ℕ → Bool → Tsan
record_access s i tid is_write = record s {
  shadow =
      update s.shadow i
        (record (s.shadow i) { vc = clock_of s tid; tid = tid; is_write = is_write });
  threads = update s.threads tid (record (s.threads tid) { vc = tsan_vc_inc (clock_of s tid) tid });
}

-- The new thread id recorded, with the thread's own clock entry at 1.
unfoldable pub start_thread : ℕ → Tsan → Tsan
start_thread self s =
    let new_tid = s.thread_count + 1 in
    record s {
      thread_count = new_tid;
      current_tid = update s.current_tid self (some new_tid);
      threads =
          update s.threads new_tid
            (record { tid = new_tid; active = true; vc = update zero_clock new_tid 1 });
    }

abbrev access_kind : Bool → List ℕ
access_kind is_write = if is_write then literal "WRITE" else literal "READ"

-- Does nothing.
unfoldable pub tsan_func_exit : Tsan → Tsan
tsan_func_exit s = s

module _ (fuel : ℕ) (machine : Machine) where
  -- `drt_atomic_add` gives the new count, so the first thread gets 1.
  unfoldable pub tsan_get_tid : ℕ → Tsan → Exec (ℕ × Tsan)
  tsan_get_tid self s = elim (s.current_tid self) [
    | some tid ↦ pure (tid, s)
    | none ↦
        let new_tid = s.thread_count + 1 in
        if leb tsan_max_threads new_tid
        then drt_die fuel "TSan: too many threads" []
        else pure (new_tid, start_thread self s)
  ]

  unfoldable pub race_text : ℕ → ℕ → Bool → ℕ → Bool → Exec (Unit {0})
  race_text tid addr is_write other_tid other_is_write = do
    drt_printf fuel "\n==TSAN: DATA RACE==\n" []
    drt_printf fuel "  Address: %p\n" (word addr ∷ [])
    drt_printf fuel "  Current access: %s by T%d\n" (text (access_kind is_write) ∷ word tid ∷ [])
    drt_printf fuel "  Previous access: %s by T%d\n"
        (text (access_kind other_is_write) ∷ word other_tid ∷ [])
    drt_print_stack_trace fuel (drt_arch_capture_stack_trace machine 2)

  unfoldable pub tsan_report_race {ℓ} : {A : Type ℓ} → ℕ → ℕ → Bool → ℕ → Bool → Exec A
  tsan_report_race tid addr is_write other_tid other_is_write =
      race_text tid addr is_write other_tid other_is_write >>= λ _. abort

  -- `tsan_access` from the result of `tsan_shadow_get` on.
  unfoldable pub entry_access : Tsan → ℕ → ℕ → Bool → Option ℕ × (ℕ → Shadow) → Exec Tsan
  entry_access s tid addr is_write (none, table) = pure (record s { shadow = table })
  entry_access s tid addr is_write (some i, table) =
      if is_race s (table i) addr tid is_write
      then tsan_report_race tid addr is_write (table i).tid (table i).is_write
      else pure (record_access (record s { shadow = table }) i tid is_write)

  -- `tsan_access` behind `tsan_get_tid`, the lock taken.
  unfoldable pub checked_access : Tsan → ℕ → ℕ → Bool → Exec Tsan
  unfolding entry_access
  checked_access s tid addr is_write =
      entry_access s tid addr is_write (tsan_shadow_get s.shadow addr true)

  unfoldable pub tsan_access : ℕ → Tsan → ℕ → Bool → Exec Tsan
  unfolding drt_spin_lock drt_spin_unlock
  tsan_access self s addr is_write = do
    (tid, s₁) ← tsan_get_tid self s
    held ← drt_spin_lock s₁.locked
    s₂ ← checked_access s₁ tid addr is_write
    released ← drt_spin_unlock held
    pure (record s₂ { locked = released })

  unfoldable pub tsan_init : ℕ → Tsan → Exec Tsan
  tsan_init self s = tsan_get_tid self s >>= λ r. pure r.1

  unfoldable pub tsan_func_entry : ℕ → Tsan → Exec Tsan
  tsan_func_entry self s = tsan_get_tid self s >>= λ r. pure r.1

  -- `__tsan_read1` to `__tsan_read16`, and the same for writes. The size is not used.
  unfoldable pub tsan_read : ℕ → Tsan → ℕ → Exec Tsan
  tsan_read self s addr = tsan_access self s addr false

  unfoldable pub tsan_write : ℕ → Tsan → ℕ → Exec Tsan
  tsan_write self s addr = tsan_access self s addr true

  -- The loop of `__tsan_read_range` and `__tsan_write_range` with `end - addr` rounds left.
  unfoldable pub tsan_range : ℕ → Tsan → ℕ → ℕ → Bool → Exec Tsan
  tsan_range self s zero addr is_write = pure s
  tsan_range self s (suc rounds) addr is_write =
      tsan_access self s addr is_write >>= λ s'. tsan_range self s' rounds (addr + 1) is_write
