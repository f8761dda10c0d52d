-- ===== src/Tsan/Calls/First/Clocks.antt =====
-- The clocks of the first thread and of the mutexes after a handler of mutexes.
use misan.Prelude.{ℕ, ◌+◌, ◌≡◌, ◌≤◌, ◌<◌, Bool, Option, none, some, update, arith, refl}
use misan.Tsan.Clock.{tsan_vc_inc}
use misan.Tsan.Clock.Join.{tsan_vc_join_lem}
use misan.Tsan.Table.{Slot, found, claimed, nowhere, probe, tsan_max_mutexes, tsan_mutex_index}
use misan.Tsan.Runtime.{Tsan, Mutex, clock_of, mutex_holds, tsan_mutex_find}
use misan.Tsan.Sync.{create_found, destroy_found, lock_found, unlock_found}
use misan.Tsan.Calls.First.{AreEarly, IsFirst}

-- A search for a mutex keeps the clocks of the others and sets the one that it takes to 0.
module _ (k addr : ℕ) (alloc : Bool) (table : ℕ → Mutex) (early : AreEarly k table) where
  walk : Slot
  walk =
      probe (mutex_holds table) tsan_max_mutexes addr alloc tsan_max_mutexes (tsan_mutex_index addr)
        (tsan_mutex_index addr)

  pub find-AreEarly : AreEarly k (tsan_mutex_find table addr alloc).1
  unfolding walk tsan_mutex_find
  find-AreEarly = go walk refl
    where
      go : (slot : Slot) → walk ≡ slot → AreEarly k (tsan_mutex_find table addr alloc).1
      go (found i) e = rw (e, tsan_mutex_find) early
      go (claimed i) e =
          rw (e, tsan_mutex_find)
            (λ j.
              (unfold update in ground (arith, early j), unfold update in ground (arith, early j)))
      go nowhere e = rw (e, tsan_mutex_find) early

-- The clocks that matter after a handler of mutexes.
abbrev pub Clocks : ℕ → Tsan → Type 0
Clocks k s =
    ((0 < clock_of s 1 1) × (clock_of s 1 1 ≤ k + 2) × (clock_of s 1 2 ≡ 0))
    × AreEarly (k + 1) s.mutexes

module _ (self k : ℕ) (s : Tsan) (v : IsFirst self k s) where
  pub early_later : (table : ℕ → Mutex) → AreEarly k table → AreEarly (k + 1) table
  early_later table early j = (omega (arith, early j), (early j).1)

  pub create_found-Clocks :
      (found : Option ℕ × (ℕ → Mutex)) → AreEarly k found.1 → Clocks k (create_found s found)
  unfolding create_found update
  create_found-Clocks (none, table) early =
      ((v.own_pos, omega (arith, v.own_le), v.unmet), early_later table early)
  create_found-Clocks (some i, table) early = (
    (v.own_pos, omega (arith, v.own_le), v.unmet),
    λ j. (ground (arith, early j), ground (arith, early j)),
  )

  pub destroy_found-Clocks :
      (found : Option ℕ × (ℕ → Mutex)) → AreEarly k found.1 → Clocks k (destroy_found s found)
  unfolding destroy_found update
  destroy_found-Clocks (none, table) early =
      ((v.own_pos, omega (arith, v.own_le), v.unmet), early_later table early)
  destroy_found-Clocks (some i, table) early = (
    (v.own_pos, omega (arith, v.own_le), v.unmet),
    λ j. (ground (arith, early j), ground (arith, early j)),
  )

  pub lock_found-Clocks :
      (found : Option ℕ × (ℕ → Mutex)) → AreEarly k found.1 → Clocks k (lock_found s 1 found)
  unfolding lock_found update
  lock_found-Clocks (none, table) early =
      ((v.own_pos, omega (arith, v.own_le), v.unmet), early_later table early)
  lock_found-Clocks (some i, table) early =
      let own = tsan_vc_join_lem (clock_of s 1) (table i).vc 1 (omega arith) in
      let unmet = tsan_vc_join_lem (clock_of s 1) (table i).vc 2 (omega arith) in
      (
        (
          ground (arith, own, v.own_pos),
          ground (arith, own, v.own_le, early i),
          ground (arith, unmet, v.unmet, early i),
        ),
        λ j. (ground (arith, early j), ground (arith, early j)),
      )

  pub unlock_found-Clocks :
      (found : Option ℕ × (ℕ → Mutex)) → AreEarly k found.1 → Clocks k (unlock_found s 1 found)
  unfolding unlock_found update tsan_vc_inc
  unlock_found-Clocks (none, table) early =
      ((v.own_pos, omega (arith, v.own_le), v.unmet), early_later table early)
  unlock_found-Clocks (some i, table) early = (
    (v.own_pos, omega (arith, v.own_le), v.unmet),
    λ j. (ground (arith, early j, v.own_le), ground (arith, early j, v.unmet)),
  )
