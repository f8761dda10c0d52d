-- ===== src/Common/Lock.antt =====
-- include/sanitizer/common.h: `drt_spin_lock` and `drt_spin_unlock` between any number of threads,
-- an atomic access at a time. A critical section is the list of its accesses to the shared state.
pub mod Exclusion
pub mod Progress
pub mod Serial
pub mod Handlers
use misan.Prelude.{ℕ, Bool, true, false, List, [], ◌∷◌, ◌≡◌, if◌then◌else◌, update}

-- Where a thread stands: between two sections, in the loop of `drt_spin_lock`, or with the lock
-- taken and some accesses left, after which it calls `drt_spin_unlock`.
pub data Place (S : Type 0) : Type 0 where
  outside : Place S
  waiting : List (S → S) → Place S
  inside : List (S → S) → Place S

pub record System (S : Type 0) : Type 0 where
  pub shared : S
  pub lock : Bool
  pub place : ℕ → Place S

module _ {S : Type 0} where
  -- The accesses of a section, one after the other.
  abbrev pub run_section : List (S → S) → S → S
  run_section [] s = s
  run_section (f ∷ rest) s = run_section rest (f s)

  -- A round of the loop of `drt_spin_lock`: `__atomic_test_and_set` gives the old value of the lock
  -- and sets it.
  unfoldable pub try_lock : ℕ → List (S → S) → System S → System S
  try_lock i body s = record s {
    lock = true;
    place = update s.place i (if s.lock then waiting body else inside body);
  }

  unfoldable pub unlock : ℕ → System S → System S
  unlock i s = record s { lock = false; place = update s.place i outside }

  unfoldable pub access : ℕ → (S → S) → List (S → S) → System S → System S
  access i f rest s = record s { shared = f s.shared; place = update s.place i (inside rest) }

  -- The next atomic access of the thread `i`, which stands at the place given.
  unfoldable pub move_from : Place S → ℕ → System S → System S
  unfolding try_lock unlock access
  move_from outside i s = s
  move_from (waiting body) i s = try_lock i body s
  move_from (inside (f ∷ rest)) i s = access i f rest s
  move_from (inside []) i s = unlock i s

  unfoldable pub move : ℕ → System S → System S
  unfolding move_from
  move i s = move_from (s.place i) i s

  -- `IsSection` says which sections the program has.
  module _ (IsSection : List (S → S) → Type 0) where
    pub data Step (s : System S) : System S → Type 0 where
      -- a thread calls a handler
      call :
          (i : ℕ) (body : List (S → S))
          → s.place i ≡ outside
          → IsSection body
          → Step s (record s { place = update s.place i (waiting body) })
      -- a thread that is not outside moves on
      go : (i : ℕ) → Step s (move i s)

    -- From the state `s₀` with the lock free and no thread in a handler.
    pub data Reach (s₀ : S) : System S → Type 0 where
      start : Reach s₀ (record { shared = s₀; lock = false; place = λ i. outside })
      later : {s t : System S} → Reach s₀ s → Step s t → Reach s₀ t
