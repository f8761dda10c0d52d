-- ===== src/Lsan.antt =====
-- src/lsan/lsan_rtl.c: LeakSanitizer, the tables and the operations on them. Of `lsan_allocs` and
-- `lsan_roots` the model keeps the entries below the counts, which are all that the code reads.
pub mod Interleaved
pub mod Check
pub mod Tables
pub mod Roots
pub mod Reachable
pub mod Leaks
pub mod Live
use misan.Prelude.{
  ℕ, zero, suc, ◌+◌, ◌-◌, ◌*◌, ◌/◌, ◌%◌, ◌^◌, Bool, true, false, List, [], ◌∷◌, u64, sub64, ◌++◌,
  ltb, leb, ◌==◌, if◌then◌else◌, ◌&&◌, ◌||◌, Exec, done, ◌>>=◌, ◌>>◌, pure, length, set, Option,
  none, some, get_or,
}
use misan.Common.Platform.{
  Machine, StackTrace, drt_arch_capture_stack_trace, drt_arch_get_time_ns, drt_spin_lock,
  drt_spin_unlock,
}

abbrev pub lsan_max_allocs : ℕ
lsan_max_allocs = 4096

abbrev pub lsan_max_roots : ℕ
lsan_max_roots = 256

pub data AllocState : Type 0 where
  active : AllocState
  freed : AllocState

pub record Alloc : Type 0 where
  pub addr : ℕ
  pub size : ℕ
  pub state : AllocState
  pub ignored : Bool
  pub stack : StackTrace
  pub timestamp : ℕ

pub record Root : Type 0 where
  pub addr : ℕ
  pub size : ℕ

pub record Lsan : Type 0 where
  pub allocs : List Alloc
  pub roots : List Root
  pub disabled : Bool
  pub locked : Bool

abbrev pub is_active : AllocState → Bool
is_active active = true
is_active freed = false

unfoldable pub lsan_register_alloc : Machine → Lsan → ℕ → ℕ → Exec Lsan
unfolding drt_spin_lock drt_spin_unlock drt_arch_get_time_ns
lsan_register_alloc m s addr size = if s.disabled then pure s else do
  held ← drt_spin_lock s.locked
  let allocs' : List Alloc =
      (if leb lsan_max_allocs (length s.allocs)
        then s.allocs
        else s.allocs
          ++ record {
            addr = addr;
            size = size;
            state = active;
            ignored = false;
            stack = drt_arch_capture_stack_trace m 2;
            timestamp = drt_arch_get_time_ns m;
          }
            ∷ [])
  released ← drt_spin_unlock held
  pure (record s { allocs = allocs'; locked = released })

-- The loop of `__lsan_unregister_alloc`, which stops at the first match.
unfoldable pub free_first : ℕ → List Alloc → List Alloc
free_first addr [] = []
free_first addr (a ∷ others) =
    if a.addr == addr && is_active a.state
    then record a { state = freed } ∷ others
    else a ∷ free_first addr others

unfoldable pub lsan_unregister_alloc : Lsan → ℕ → Exec Lsan
unfolding drt_spin_lock drt_spin_unlock
lsan_unregister_alloc s addr = if s.disabled then pure s else do
  held ← drt_spin_lock s.locked
  released ← drt_spin_unlock held
  pure (record s { allocs = free_first addr s.allocs; locked = released })

unfoldable pub lsan_register_root_region : Lsan → ℕ → ℕ → Exec Lsan
unfolding drt_spin_lock drt_spin_unlock
lsan_register_root_region s p size = do
  held ← drt_spin_lock s.locked
  let roots' : List Root =
      if ltb (length s.roots) lsan_max_roots
      then s.roots ++ record { addr = p; size = size } ∷ []
      else s.roots
  released ← drt_spin_unlock held
  pure (record s { roots = roots'; locked = released })

-- The last entry, and the list without it.
abbrev pub last_or : Root → List Root → Root
last_or r [] = r
last_or r (x ∷ xs) = last_or x xs

abbrev pub drop_last : List Root → List Root
drop_last [] = []
drop_last (x ∷ []) = []
drop_last (x ∷ y ∷ xs) = x ∷ drop_last (y ∷ xs)

-- The loop of `__lsan_unregister_root_region`: the first match is overwritten by the last entry of
-- the table, which is then given up.
unfoldable pub remove_root : ℕ → List Root → List Root
remove_root p [] = []
remove_root p (r ∷ rs) = if r.addr == p then drop_last (last_or r rs ∷ rs) else r ∷ remove_root p rs

unfoldable pub lsan_unregister_root_region : Lsan → ℕ → ℕ → Exec Lsan
unfolding drt_spin_lock drt_spin_unlock
lsan_unregister_root_region s p size = do
  held ← drt_spin_lock s.locked
  released ← drt_spin_unlock held
  pure (record s { roots = remove_root p s.roots; locked = released })

-- The loop of `__lsan_ignore_object`, which looks at the address alone.
unfoldable pub ignore_first : ℕ → List Alloc → List Alloc
ignore_first p [] = []
ignore_first p (a ∷ others) =
    if a.addr == p then record a { ignored = true } ∷ others else a ∷ ignore_first p others

unfoldable pub lsan_ignore_object : Lsan → ℕ → Exec Lsan
unfolding drt_spin_lock drt_spin_unlock
lsan_ignore_object s p = do
  held ← drt_spin_lock s.locked
  released ← drt_spin_unlock held
  pure (record s { allocs = ignore_first p s.allocs; locked = released })

unfoldable pub lsan_disable : Lsan → Lsan
lsan_disable s = record s { disabled = true }

unfoldable pub lsan_enable : Lsan → Lsan
lsan_enable s = record s { disabled = false }
