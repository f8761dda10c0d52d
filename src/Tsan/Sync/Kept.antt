-- ===== src/Tsan/Sync/Kept.antt =====
-- What the handlers of mutexes leave as it is.
use misan.Prelude.{ℕ, ◌≡◌, ◌≢◌, Option, none, some, refl, update_ne}
use misan.Tsan.Runtime.{Tsan, Mutex}
use misan.Tsan.Sync.{create_found, destroy_found, lock_found, unlock_found}

-- The calls of the thread with the id `t`.
module _ (t : ℕ) where
  -- What a section on the mutexes leaves as it is.
  pub record Keeps (s s' : Tsan) : Type 0 where
    pub shadows : s'.shadow ≡ s.shadow
    pub others : (u : ℕ) → u ≢ t → s'.threads u ≡ s.threads u
    pub count : s'.thread_count ≡ s.thread_count
    pub ids : s'.current_tid ≡ s.current_tid

  pub create_found-Keeps :
      (s : Tsan) (found : Option ℕ × (ℕ → Mutex)) → Keeps s (create_found s found)
  unfolding create_found
  create_found-Keeps s (none, table) = record {
    shadows = refl;
    count = refl;
    others = λ u ne. refl;
    ids = refl;
  }
  create_found-Keeps s (some i, table) = record {
    shadows = refl;
    count = refl;
    others = λ u ne. refl;
    ids = refl;
  }

  pub destroy_found-Keeps :
      (s : Tsan) (found : Option ℕ × (ℕ → Mutex)) → Keeps s (destroy_found s found)
  unfolding destroy_found
  destroy_found-Keeps s (none, table) = record {
    shadows = refl;
    count = refl;
    others = λ u ne. refl;
    ids = refl;
  }
  destroy_found-Keeps s (some i, table) = record {
    shadows = refl;
    count = refl;
    others = λ u ne. refl;
    ids = refl;
  }

  pub unlock_found-Keeps :
      (s : Tsan) (found : Option ℕ × (ℕ → Mutex)) → Keeps s (unlock_found s t found)
  unfolding unlock_found
  unlock_found-Keeps s (none, table) = record {
    shadows = refl;
    count = refl;
    others = λ u ne. refl;
    ids = refl;
  }
  unlock_found-Keeps s (some i, table) = record {
    shadows = refl;
    count = refl;
    others = λ u ne. refl;
    ids = refl;
  }

  pub lock_found-Keeps :
      (s : Tsan) (found : Option ℕ × (ℕ → Mutex)) → Keeps s (lock_found s t found)
  unfolding lock_found
  lock_found-Keeps s (none, table) = record {
    shadows = refl;
    count = refl;
    others = λ u ne. refl;
    ids = refl;
  }
  lock_found-Keeps s (some i, table) = record {
    shadows = refl;
    count = refl;
    others = λ u ne. update_ne s.threads t u _ ne;
    ids = refl;
  }
