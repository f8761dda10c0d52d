-- ===== src/Asan/Globals/Released.antt =====
-- What is left of globals that are unregistered.
use misan.Prelude.{
  ℕ, ◌+◌, ◌*◌, ◌/◌, ◌^◌, ◌≤◌, ◌<◌, ◌≡◌, Bool, true, false, List, [], ◌∷◌, All, Any, inl, inr,
  returns, arith,
}
use misan.Common.Platform.{Machine}
use misan.Asan.Shadow.{Memory, asan_shadow_get, asan_poison_range, asan_shadow_poisoned}
use misan.Asan.Shadow.Ranges.{app_limit, asan_poison_range_lem}
use misan.Asan.Access.{Runtime, asan_check_access}
use misan.Asan.Access.Checked.{asan_check_access_iff}
use misan.Asan.Globals.{AsanGlobal, asan_unregister_globals}
use misan.Asan.Globals.Guarded.{IsLaidOut}

-- The address is in the variable or its redzone.
abbrev pub Covers : ℕ → AsanGlobal → Type 0
Covers x g = (g.beg ≤ x) × (x < g.beg + g.size_with_redzone)

unregister-keeps :
    (m : Memory) (gs : List AsanGlobal) (x : ℕ)
    → All IsLaidOut gs
    → x < app_limit
    → asan_shadow_get m x ≡ 0xFF
    → asan_shadow_get (asan_unregister_globals m gs) x ≡ 0xFF
unfolding asan_unregister_globals
unregister-keeps m [] x ls low h = h
unregister-keeps m (g ∷ gs) x (l, ls) low h =
    unregister-keeps (asan_poison_range m g.beg g.size_with_redzone asan_shadow_poisoned) gs x ls
      low
      (ground (
        arith,
        l,
        h,
        asan_poison_range_lem m g.beg g.size_with_redzone x l.low low 0xFF
            (omega (arith, l.nonempty, l.roomy)),
      ))

unregister_lem :
    (m : Memory) (gs : List AsanGlobal) (x : ℕ)
    → All IsLaidOut gs
    → Any (Covers x) gs
    → asan_shadow_get (asan_unregister_globals m gs) x ≡ 0xFF
unfolding asan_unregister_globals
unregister_lem m [] x ls h = absurd h
unregister_lem m (g ∷ gs) x (l, ls) (inl (lo, hi)) =
    unregister-keeps (asan_poison_range m g.beg g.size_with_redzone asan_shadow_poisoned) gs x ls
      (omega (arith, l.low))
      (ground (
        arith,
        l,
        asan_poison_range_lem m g.beg g.size_with_redzone x l.low (omega (arith, l.low)) 0xFF
            (omega (arith, l.nonempty, l.roomy)),
      ))
unregister_lem m (g ∷ gs) x (l, ls) (inr later) =
    unregister_lem (asan_poison_range m g.beg g.size_with_redzone asan_shadow_poisoned) gs x ls
      later

grain-Covers :
    (gs : List AsanGlobal) (addr : ℕ)
    → All IsLaidOut gs
    → Any (Covers addr) gs
    → Any (Covers (addr / 8 * 8)) gs
grain-Covers [] addr ls h = absurd h
grain-Covers (g ∷ gs) addr (l, ls) (inl (lo, hi)) = inl (omega (arith, l.aligned), omega arith)
grain-Covers (g ∷ gs) addr (l, ls) (inr later) = inr (grain-Covers gs addr ls later)

-- Once globals that are laid out in whole grains are unregistered, no access of 1 to 2^63 bytes
-- that begins in one of them or its redzone returns, if the runtime is initialized.
pub asan_unregister_globals_poisons :
    (fuel : ℕ) (machine : Machine) (r : Runtime) (gs : List AsanGlobal) (addr n : ℕ)
    (is_write : Bool)
    → All IsLaidOut gs
    → Any (Covers addr) gs
    → r.initialized ≡ true
    → addr < 2 ^ 64
    → 0 < n
    → n ≤ 2 ^ 63
    → returns (
        asan_check_access fuel machine
          (record r { memory = asan_unregister_globals r.memory gs })
          addr
          n
          is_write)
      ≡ false
asan_unregister_globals_poisons fuel machine r gs addr n is_write ls covered on low pos le =
    ground (
      arith,
      asan_check_access_iff fuel machine (record r { memory = asan_unregister_globals r.memory gs })
          addr n is_write,
      unregister_lem r.memory gs (addr / 8 * 8) ls (grain-Covers gs addr ls covered),
    )
