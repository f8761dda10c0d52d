-- ===== src/Asan/Globals/Guarded.antt =====
-- The shadow of registered globals, and the accesses that it lets through.
use misan.Asan.Shadow.Ranges.{
  asan_unpoison_range_lem, app_limit, asan_poison_range_lem, asan_poison_range-zero,
}
use native.Mathlib.Decide.{dec_lt}
use misan.Prelude.{
  ℕ, ◌+◌, ◌-◌, ◌*◌, ◌/◌, ◌%◌, ◌^◌, Bool, true, false, ◌&&◌, List, [], ◌∷◌, ltb, leb, ◌==◌,
  if◌then◌else◌, u64, sub64, not, ◌≡◌, ◌≤◌, ◌<◌, arith, returns, ◌⊎◌, All,
}
use misan.Common.Platform.{Machine}
use misan.Common.Mapping.{Mmap}
use misan.Asan.Start.{asan_init}
use misan.Asan.Shadow.{Memory, asan_shadow_get, asan_unpoison_range}
use misan.Asan.Access.{Runtime, asan_check_access}
use misan.Asan.Access.Checked.{asan_check_access_iff}
use misan.Asan.Globals.{
  AsanGlobal, register_global, register_each, asan_register_globals, asan_shadow_global_redzone,
}

-- What the compiler passes: whole grains, with room for the variable.
pub record IsLaidOut (g : AsanGlobal) : Type 0 where
  pub aligned : g.beg % 8 ≡ 0
  pub whole : g.size_with_redzone % 8 ≡ 0
  pub nonempty : 0 < g.size
  pub roomy : g.size ≤ g.size_with_redzone
  pub low : g.beg + g.size_with_redzone ≤ app_limit

-- The shadow byte of an address of the global or its redzone.
abbrev pub guard_byte : AsanGlobal → ℕ → ℕ
guard_byte g x =
    if ltb (x / 8) ((g.beg + g.size) / 8)
    then 0
    else if x / 8 == (g.beg + g.size) / 8 && not ((g.beg + g.size) % 8 == 0)
    then (g.beg + g.size) % 8
    else asan_shadow_global_redzone

abbrev pub IsGuarded : Memory → AsanGlobal → Type 0
IsGuarded m g =
    (x : ℕ) → g.beg ≤ x → x < g.beg + g.size_with_redzone → asan_shadow_get m x ≡ guard_byte g x

abbrev pub IsApart : AsanGlobal → AsanGlobal → Type 0
IsApart g h = (g.beg + g.size_with_redzone ≤ h.beg) ⊎ (h.beg + h.size_with_redzone ≤ g.beg)

-- Every two of the list are apart.
abbrev pub AreApart : List AsanGlobal → Type 0
AreApart [] = Unit
AreApart (g ∷ gs) = All (IsApart g) gs × AreApart gs

-- Poisoning the redzone after unpoisoning the variable, grain by grain: the global has the grains
-- `b` to `t`, the redzone begins in the grain `e` at the byte `r`.
grains_merge :
    (b e t q r last old : ℕ)
    → b ≤ e
    → e < t
    → last ≡ (if r == 0 then e - 1 else e)
    → (r ≡ 0 → b < e)
    → (if leb e q && leb q (t - 1)
        then (if q == e && not (r == 0) then r else 0xF9)
        else (if leb b q && leb q last then 0 else old))
      ≡ (if leb b q && ltb q t
          then (if ltb q e then 0 else if q == e && not (r == 0) then r else 0xF9)
          else old)
grains_merge b e t q r last old be et l pos = ground arith

register_global-redzone :
    (m : Memory) (g : AsanGlobal) (x : ℕ)
    → IsLaidOut g
    → g.size < g.size_with_redzone
    → x < app_limit
    → asan_shadow_get (register_global m g) x ≡ (
        if leb (g.beg / 8) (x / 8) && ltb (x / 8) ((g.beg + g.size_with_redzone) / 8)
        then guard_byte g x
        else asan_shadow_get m x)
unfolding register_global
register_global-redzone m g x l p low =
    let end : u64 (g.beg + g.size) ≡ g.beg + g.size = omega arith in
    let room : sub64 g.size_with_redzone g.size ≡ g.size_with_redzone - g.size = omega arith in
    rw
      (
        end,
        room,
        asan_poison_range_lem (asan_unpoison_range m g.beg g.size) (g.beg + g.size)
            (g.size_with_redzone - g.size) x (omega arith) low asan_shadow_global_redzone
            (omega arith),
        asan_unpoison_range_lem m g.beg g.size x (omega arith) low l.nonempty,
        last,
      )
      (grains_merge (g.beg / 8) ((g.beg + g.size) / 8) ((g.beg + g.size_with_redzone) / 8) (x / 8)
        ((g.beg + g.size) % 8) ((g.beg + g.size - 1) / 8) (asan_shadow_get m x) (omega arith)
        (omega arith) (ground arith) (λ e. omega arith))
  where
    last :
        (g.beg + g.size + (g.size_with_redzone - g.size) - 1) / 8
        ≡ (g.beg + g.size_with_redzone) / 8 - 1
    last = omega arith

register_global-full :
    (m : Memory) (g : AsanGlobal) (x : ℕ)
    → IsLaidOut g
    → g.size ≡ g.size_with_redzone
    → x < app_limit
    → asan_shadow_get (register_global m g) x ≡ (
        if leb (g.beg / 8) (x / 8) && ltb (x / 8) ((g.beg + g.size_with_redzone) / 8)
        then guard_byte g x
        else asan_shadow_get m x)
unfolding register_global
register_global-full m g x l p low =
    let room : sub64 g.size_with_redzone g.size ≡ 0 = omega arith in
    rw
      (
        room,
        asan_poison_range-zero (asan_unpoison_range m g.beg g.size) (u64 (g.beg + g.size))
            asan_shadow_global_redzone,
        asan_unpoison_range_lem m g.beg g.size x (omega arith) low l.nonempty,
      )
      (ground arith)

-- The shadow after one registration: the guard bytes in the global's grains, the rest unchanged.
pub register_global_lem :
    (m : Memory) (g : AsanGlobal) (x : ℕ)
    → IsLaidOut g
    → x < app_limit
    → asan_shadow_get (register_global m g) x ≡ (
        if leb (g.beg / 8) (x / 8) && ltb (x / 8) ((g.beg + g.size_with_redzone) / 8)
        then guard_byte g x
        else asan_shadow_get m x)
register_global_lem m g x l low = elim (dec_lt g.size g.size_with_redzone) [
  | yes p ↦ register_global-redzone m g x l p low
  | no p ↦ register_global-full m g x l (omega arith) low
]

register_global-IsGuarded :
    (m : Memory) (g : AsanGlobal) → IsLaidOut g → IsGuarded (register_global m g) g
register_global-IsGuarded m g l x lo hi = ground (arith, register_global_lem m g x l)

register_global-keeps :
    (m : Memory) (g h : AsanGlobal)
    → IsLaidOut g
    → IsLaidOut h
    → IsApart g h
    → IsGuarded m h
    → IsGuarded (register_global m g) h
register_global-keeps m g h lg lh apart guarded x lo hi =
    ground (arith, register_global_lem m g x lg, guarded x)

register_each-keeps :
    (m : Memory) (gs : List AsanGlobal) (h : AsanGlobal)
    → All IsLaidOut gs
    → IsLaidOut h
    → All (λ g. IsApart h g) gs
    → IsGuarded m h
    → IsGuarded (register_each m gs) h
unfolding register_each
register_each-keeps m [] h ls lh apart guarded = guarded
register_each-keeps m (g ∷ gs) h ls lh apart guarded =
    register_each-keeps (register_global m g) gs h ls.1 lh apart.1
      (register_global-keeps m g h ls.0 lh (omega arith) guarded)

register_each-IsGuarded :
    (m : Memory) (gs : List AsanGlobal)
    → All IsLaidOut gs
    → AreApart gs
    → All (IsGuarded (register_each m gs)) gs
unfolding register_each
register_each-IsGuarded m [] ls apart = tt
register_each-IsGuarded m (g ∷ gs) ls apart = (
  register_each-keeps (register_global m g) gs g ls.1 ls.0 apart.0
      (register_global-IsGuarded m g ls.0),
  register_each-IsGuarded (register_global m g) gs ls.1 apart.1,
)

-- If the globals of a list are laid out in whole grains and apart from each other, registering
-- the list leaves the runtime initialized, whatever the mapping of the shadow did, and every
-- global guarded: each shadow byte of the variable and its redzone has the value that the layout
-- calls for.
pub asan_register_globals-IsGuarded :
    (mmap : Mmap) (r : Runtime) (gs : List AsanGlobal)
    → All IsLaidOut gs
    → AreApart gs
    → ((asan_register_globals mmap r gs).initialized ≡ true)
      × All (IsGuarded (asan_register_globals mmap r gs).memory) gs
unfolding asan_register_globals asan_init
asan_register_globals-IsGuarded mmap r gs ls apart = (
  ground arith,
  register_each-IsGuarded (if r.initialized then r else asan_init mmap r).memory gs ls apart,
)

module _ (fuel : ℕ) (machine : Machine) (r : Runtime) (g : AsanGlobal) (addr n : ℕ)
    (is_write : Bool) (l : IsLaidOut g) (guarded : IsGuarded r.memory g) (n_le : n ≤ 2 ^ 63) where
  -- Of a guarded global that is laid out in whole grains, every access of 1 to 2^63 bytes inside
  -- the variable returns.
  pub asan_check_access-IsGuarded :
      0 < n
      → g.beg ≤ addr
      → addr + n ≤ g.beg + g.size
      → returns (asan_check_access fuel machine r addr n is_write) ≡ true
  asan_check_access-IsGuarded pos lo hi =
      ground (arith, asan_check_access_iff fuel machine r addr n is_write, guarded (addr / 8 * 8))

  -- Of a guarded global that is laid out in whole grains, no access of 1 to 2^63 bytes that
  -- begins in the redzone returns, once the runtime is initialized.
  pub asan_check_access-redzone :
      r.initialized ≡ true
      → 0 < n
      → g.beg + g.size ≤ addr
      → addr < g.beg + g.size_with_redzone
      → returns (asan_check_access fuel machine r addr n is_write) ≡ false
  asan_check_access-redzone on pos lo hi =
      ground (arith, asan_check_access_iff fuel machine r addr n is_write, guarded (addr / 8 * 8))
