-- ===== src/Lsan/Tables.antt =====
-- The allocation table: what is tracked after each operation, and the bounds of the tables.
use misan.Common.Platform.{drt_arch_get_time_ns, drt_arch_capture_stack_trace, Machine}
use misan.Prelude.{
  ℕ, ◌+◌, ◌-◌, true, false, List, [], ◌∷◌, ◌++◌, ltb, leb, ◌==◌, ◌≡◌, ◌≤◌, refl, arith,
  if◌then◌else◌, ◌&&◌, Exec, done, ◌>>=◌, pure, length, not, length-append,
}
use misan.Lsan.{
  Lsan, Alloc, Root, active, is_active, lsan_max_allocs, lsan_max_roots, lsan_register_alloc,
  lsan_unregister_alloc, free_first, lsan_register_root_region, lsan_unregister_root_region,
  remove_root, last_or, drop_last, ignore_first, lsan_ignore_object, lsan_disable, lsan_enable,
}

-- How many live blocks at an address the table holds.
unfoldable pub count_active : ℕ → List Alloc → ℕ
count_active addr [] = 0
count_active addr (a ∷ others) =
    (if a.addr == addr && is_active a.state then 1 else 0) + count_active addr others

pub count_active-append :
    (addr : ℕ) (xs ys : List Alloc)
    → count_active addr (xs ++ ys) ≡ count_active addr xs + count_active addr ys
unfolding count_active
count_active-append addr [] ys = omega arith
count_active-append addr (x ∷ xs) ys = omega (arith, count_active-append addr xs ys)

pub count_active-free_first :
    (q addr : ℕ) (xs : List Alloc)
    → count_active q (free_first addr xs) ≡ count_active q xs - (if q == addr then 1 else 0)
unfolding count_active free_first
count_active-free_first q addr [] = ground arith
count_active-free_first q addr (x ∷ xs) = ground (arith, count_active-free_first q addr xs)

pub length-free_first : (addr : ℕ) (xs : List Alloc) → length (free_first addr xs) ≡ length xs
unfolding free_first
length-free_first addr [] = refl
length-free_first addr (x ∷ xs) = ground (arith, length-free_first addr xs)

pub length-ignore_first : (p : ℕ) (xs : List Alloc) → length (ignore_first p xs) ≡ length xs
unfolding ignore_first
length-ignore_first p [] = refl
length-ignore_first p (x ∷ xs) = ground (arith, length-ignore_first p xs)

length-drop_last : (x : Root) (xs : List Root) → length (drop_last (x ∷ xs)) ≡ length xs
length-drop_last x [] = refl
length-drop_last x (y ∷ ys) = omega (arith, length-drop_last y ys)

length-remove_root : (p : ℕ) (rs : List Root) → length (remove_root p rs) ≤ length rs
unfolding remove_root
length-remove_root p [] = omega arith
length-remove_root p (r ∷ rs) =
    ground (arith, length-remove_root p rs, length-drop_last (last_or r rs) rs)

-- The lock is free and the counts are within the arrays.
pub record IsValid (s : Lsan) : Type 0 where
  pub unlocked : s.locked ≡ false
  pub allocs_fit : length s.allocs ≤ lsan_max_allocs
  pub roots_fit : length s.roots ≤ lsan_max_roots

-- A call of the public interface that changes the tables.
pub data Call : Type 0 where
  register_alloc : ℕ → ℕ → Call
  unregister_alloc : ℕ → Call
  register_root : ℕ → ℕ → Call
  unregister_root : ℕ → ℕ → Call
  ignore_object : ℕ → Call
  disable : Call
  enable : Call

unfoldable pub perform : Machine → Call → Lsan → Exec Lsan
perform m (register_alloc addr size) s = lsan_register_alloc m s addr size
perform m (unregister_alloc addr) s = lsan_unregister_alloc s addr
perform m (register_root p size) s = lsan_register_root_region s p size
perform m (unregister_root p size) s = lsan_unregister_root_region s p size
perform m (ignore_object p) s = lsan_ignore_object s p
perform m disable s = pure (lsan_disable s)
perform m enable s = pure (lsan_enable s)

unfoldable pub perform_all : Machine → List Call → Lsan → Exec Lsan
unfolding perform
perform_all m [] s = pure s
perform_all m (c ∷ cs) s = perform m c s >>= perform_all m cs

-- The entry that a registration writes.
abbrev pub new_entry : Machine → ℕ → ℕ → Alloc
new_entry m addr size = record {
  addr = addr;
  size = size;
  state = active;
  ignored = false;
  stack = drt_arch_capture_stack_trace m 2;
  timestamp = drt_arch_get_time_ns m;
}

-- The table of allocations after a registration that is not switched off.
abbrev pub registered : Machine → Lsan → ℕ → ℕ → List Alloc
registered m s addr size =
    if leb lsan_max_allocs (length s.allocs)
    then s.allocs
    else s.allocs ++ new_entry m addr size ∷ []

-- The state that a call leaves when it finds the lock free.
unfoldable pub after_call : Machine → Call → Lsan → Lsan
after_call m (register_alloc addr size) s =
    if s.disabled then s else record s { allocs = registered m s addr size; locked = false }
after_call m (unregister_alloc addr) s =
    if s.disabled then s else record s { allocs = free_first addr s.allocs; locked = false }
after_call m (register_root p size) s = record s {
  roots =
      if ltb (length s.roots) lsan_max_roots
      then s.roots ++ record { addr = p; size = size } ∷ []
      else s.roots;
  locked = false;
}
after_call m (unregister_root p size) s = record s { roots = remove_root p s.roots; locked = false }
after_call m (ignore_object p) s = record s { allocs = ignore_first p s.allocs; locked = false }
after_call m disable s = record s { disabled = true }
after_call m enable s = record s { disabled = false }

pub perform-after_call :
    (m : Machine) (c : Call) (s : Lsan)
    → s.locked ≡ false
    → perform m c s ≡ done [] (after_call m c s)
unfolding perform after_call lsan_register_alloc lsan_unregister_alloc lsan_register_root_region
    lsan_unregister_root_region lsan_ignore_object lsan_disable lsan_enable
perform-after_call m (register_alloc addr size) s h = ground arith
perform-after_call m (unregister_alloc addr) s h = ground arith
perform-after_call m (register_root p size) s h = ground arith
perform-after_call m (unregister_root p size) s h = ground arith
perform-after_call m (ignore_object p) s h = ground arith
perform-after_call m disable s h = refl
perform-after_call m enable s h = refl

pub after_call-IsValid :
    (m : Machine) (c : Call) (s : Lsan) → IsValid s → IsValid (after_call m c s)
unfolding after_call
after_call-IsValid m (register_alloc addr size) s v =
    ground (arith, length-append s.allocs (new_entry m addr size ∷ []))
after_call-IsValid m (unregister_alloc addr) s v = ground (arith, length-free_first addr s.allocs)
after_call-IsValid m (register_root p size) s v =
    ground (arith, length-append s.roots (record { addr = p; size = size } ∷ []))
after_call-IsValid m (unregister_root p size) s v = ground (arith, length-remove_root p s.roots)
after_call-IsValid m (ignore_object p) s v = ground (arith, length-ignore_first p s.allocs)
after_call-IsValid m disable s v = ground arith
after_call-IsValid m enable s v = ground arith

-- From a valid state every sequence of calls returns, prints nothing, and leaves a valid state:
-- the lock is free again and neither table is overrun.
pub perform_all-IsValid :
    (m : Machine) (cs : List Call) (s : Lsan)
    → IsValid s
    → (s' : Lsan) × (perform_all m cs s ≡ done [] s') × IsValid s'
unfolding perform_all
perform_all-IsValid m [] s v = (s, refl, v)
perform_all-IsValid m (c ∷ cs) s v =
    let (s', run, v') = perform_all-IsValid m cs (after_call m c s) (after_call-IsValid m c s v) in
    (s', rw (perform-after_call m c s v.unlocked, run), v')

-- From a valid state, registering a block adds one live block at its address, unless tracking is
-- switched off or the table is full; unregistering takes one away, if there is one and tracking
-- is on. The count of no other address changes.
pub count_active-perform :
    (m : Machine) (s : Lsan) (addr size q : ℕ)
    → IsValid s
    → ((s' : Lsan) × (lsan_register_alloc m s addr size ≡ done [] s')
        × (count_active q s'.allocs
            ≡ count_active q s.allocs
              + (if not s.disabled && ltb (length s.allocs) lsan_max_allocs && q == addr
                  then 1
                  else 0)))
      × ((s' : Lsan) × (lsan_unregister_alloc s addr ≡ done [] s')
          × (count_active q s'.allocs
              ≡ count_active q s.allocs - (if not s.disabled && q == addr then 1 else 0)))
unfolding after_call perform lsan_register_alloc lsan_unregister_alloc count_active
count_active-perform m s addr size q v = (
  (
    after_call m (register_alloc addr size) s,
    perform-after_call m (register_alloc addr size) s v.unlocked,
    ground (arith, count_active-append q s.allocs (new_entry m addr size ∷ [])),
  ),
  (
    after_call m (unregister_alloc addr) s,
    perform-after_call m (unregister_alloc addr) s v.unlocked,
    ground (arith, count_active-free_first q addr s.allocs),
  ),
)
