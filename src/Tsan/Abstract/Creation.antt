-- ===== src/Tsan/Abstract/Creation.antt =====
-- The creation of a mutex in the table and in the abstract state.
use misan.Prelude.{
  ℕ, suc, true, Option, none, some, ◌≡◌, ◌≢◌, ◌<◌, if◌then◌else◌, update, arith, refl, ap, sym, ◌∙◌,
  inr,
}
use mathlib.Core.Path.{subst}
use misan.Tsan.Clock.{Clock, zero_clock}
use misan.Tsan.Table.{Slot, found, claimed, nowhere, tsan_max_mutexes, tsan_mutex_index}
use misan.Tsan.Table.Probing.{IsAnswer, probe-IsAnswer}
use misan.Tsan.Table.Room.{taken, taken-le, taken-full}
use misan.Tsan.Runtime.{Tsan, Mutex, mutex_holds, tsan_mutex_find}
use misan.Tsan.Sync.{create_found, tsan_mutex_create}
use misan.Tsan.Sync.Transfer.{index-lt}
use misan.Tsan.Abstract.{View}
use misan.Tsan.Abstract.Mutexes.{Mutexes, claiming, put-Mutexes}
use misan.Tsan.Abstract.Represents.{Represents, Agrees}
use misan.Tsan.Abstract.Sections.{under_lock-Agrees, with_mutexes}

module _ (table : ℕ → Mutex) (clocks : ℕ → Option Clock) (n : ℕ) (v : Mutexes table clocks n)
    (addr : ℕ) where
  -- Where a mutex is created whose address is not in the table, a free slot is taken.
  claiming-lem :
      clocks addr ≡ none
      → taken tsan_max_mutexes (mutex_holds table) < tsan_max_mutexes
      → (i : ℕ) × (claiming table addr ≡ claimed i)
        × (i < tsan_max_mutexes)
        × (mutex_holds table i ≡ none)
  claiming-lem absent space = go (claiming table addr) refl answer
    where
      answer : IsAnswer (mutex_holds table) tsan_max_mutexes addr true (claiming table addr)
      answer =
          unfold claiming in
          probe-IsAnswer (mutex_holds table) tsan_max_mutexes addr true (tsan_mutex_index addr)
            (index-lt addr)

      go :
          (slot : Slot)
          → claiming table addr ≡ slot
          → IsAnswer (mutex_holds table) tsan_max_mutexes addr true slot
          → (i : ℕ) × (claiming table addr ≡ claimed i)
            × (i < tsan_max_mutexes)
            × (mutex_holds table i ≡ none)
      go (found i) at a = cc (sym (v.known i addr a.0 a.1) ∙ absent)
      go (claimed i) at a = (i, at, a.0, a.1)
      go nowhere at a = absurd (
          omega
            (arith, space, taken-full tsan_max_mutexes (mutex_holds table) (λ j lt. a.1 j lt refl)))

-- A mutex that is not live is created with an empty clock.
module _ (n c : ℕ) (s : Tsan) (v : View) (rep : Represents s v n (suc c)) (addr : ℕ)
    (fresh : v.mutexes addr ≡ none) where
  find-claimed :
      (i : ℕ)
      → claiming s.mutexes addr ≡ claimed i
      → tsan_mutex_find s.mutexes addr true ≡ (
        some i,
        update s.mutexes i (record (s.mutexes i) { addr = addr; active = true; vc = zero_clock }),
      )
  unfolding tsan_mutex_find claiming
  find-claimed i e = rw (e, tsan_mutex_find)

  created : ℕ → ℕ → Mutex
  created i =
      let table =
        update s.mutexes i (record (s.mutexes i) { addr = addr; active = true; vc = zero_clock }) in
      update table i (record (table i) { owner_tid = none; vc = zero_clock })

  created-Mutexes :
      (i : ℕ)
      → claiming s.mutexes addr ≡ claimed i
      → i < tsan_max_mutexes
      → mutex_holds s.mutexes i ≡ none
      → Mutexes (created i) (update v.mutexes addr (some zero_clock)) c
  created-Mutexes i at inside free =
      let others : (j : ℕ) → j ≢ i → created i j ≡ s.mutexes j =
        λ j ne. unfold created update in ground (arith, ne) in
      let same : (created i i).vc ≡ zero_clock = unfold created update in ground arith in
      let here : mutex_holds (created i) i ≡ some addr = unfold created update in ground arith in
      subst (λ (k : Clock). Mutexes (created i) (update v.mutexes addr (some k)) c) same
        (put-Mutexes s.mutexes v.mutexes (suc c) rep.mutexes addr i (created i) inside others c here
          (inr (free, fresh, at))
          (omega (
            arith,
            rep.mutexes.room,
            taken-le tsan_max_mutexes (mutex_holds s.mutexes) (mutex_holds (created i)) i
                (λ j ne. ap (λ (m : Mutex). if m.active then some m.addr else none) (others j ne)),
          )))

  pub tsan_mutex_create-Agrees :
      Agrees n c
        (tsan_mutex_create s addr)
        (some (record v { mutexes = update v.mutexes addr (some zero_clock) }))
  unfolding tsan_mutex_create
  tsan_mutex_create-Agrees =
      let (i, at, inside, free) =
        claiming-lem s.mutexes v.mutexes (suc c) rep.mutexes addr fresh
          (omega (arith, rep.mutexes.room)) in
      under_lock-Agrees n c s (λ t. create_found t (tsan_mutex_find t.mutexes addr true)) _
        (record s { mutexes = created i }) rep.free
        (ap (create_found s) (find-claimed i at) ∙ unfold create_found created in refl)
        (with_mutexes n (suc c) s v rep c _ _ (created-Mutexes i at inside free))
