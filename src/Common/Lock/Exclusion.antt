-- ===== src/Common/Lock/Exclusion.antt =====
-- At most one thread is in a critical section.
use misan.Prelude.{
  ℕ, Bool, true, false, List, [], ◌∷◌, ◌≡◌, update, refl, arith, Bool-cases, inl, inr,
}
use misan.Common.Lock.{
  Place, outside, waiting, inside, System, move_from, move, Step, call, go, Reach, start, later,
}

module _ {S : Type 0} where
  abbrev pub is_inside : Place S → Bool
  is_inside outside = false
  is_inside (waiting body) = false
  is_inside (inside rest) = true

  -- Two threads are never inside, none is while the lock is free, and one is while it is taken.
  pub record IsExclusive (s : System S) : Type 0 where
    pub alone : (i j : ℕ) → is_inside (s.place i) ≡ true → is_inside (s.place j) ≡ true → i ≡ j
    pub free : s.lock ≡ false → (i : ℕ) → is_inside (s.place i) ≡ false
    pub held : s.lock ≡ true → (i : ℕ) × (is_inside (s.place i) ≡ true)

  move_from-IsExclusive :
      (p : Place S) (i : ℕ) (s : System S)
      → s.place i ≡ p
      → IsExclusive s
      → IsExclusive (move_from p i s)
  unfolding move_from update
  move_from-IsExclusive outside i s e v = v
  move_from-IsExclusive (waiting body) i s e v = elim (Bool-cases s.lock) [
    | inl taken ↦ record {
      alone = λ a b h k. ground (arith, v.alone a b);
      free = λ h. cc;
      held = λ _. let (x, at) = v.held taken in (x, ground arith);
    }
    | inr free ↦ record {
      alone = λ a b h k. ground (arith, v.free free a, v.free free b);
      free = λ h. cc;
      held = λ _. (i, ground arith);
    }
  ]
  move_from-IsExclusive (inside (f ∷ rest)) i s e v = record {
    alone = λ a b h k. ground (arith, v.alone a b);
    free = λ h a. ground (arith, v.free h a);
    held = λ h. (i, ground arith);
  }
  move_from-IsExclusive (inside []) i s e v = record {
    alone = λ a b h k. ground (arith, v.alone i a, v.alone i b);
    free = λ h a. ground (arith, v.alone i a);
    held = λ h. cc;
  }

  module _ (IsSection : List (S → S) → Type 0) where
    pub Step-IsExclusive : {s t : System S} → Step IsSection s t → IsExclusive s → IsExclusive t
    unfolding move update
    Step-IsExclusive {s} (call i body e at) v = record {
      alone = λ a b h k. ground (arith, v.alone a b);
      free = λ h a. ground (arith, v.free h a);
      held = λ h. let (x, at) = v.held h in (x, ground arith);
    }
    Step-IsExclusive {s} (go i) v = move_from-IsExclusive (s.place i) i s refl v

    -- In every reachable state at most one thread is in a critical section, none is while the
    -- spin lock is free, and one is while it is taken.
    pub Reach-IsExclusive : {s₀ : S} {s : System S} → Reach IsSection s₀ s → IsExclusive s
    Reach-IsExclusive start = record {
      alone = λ i j h k. cc h;
      free = λ h i. refl;
      held = λ h. cc h;
    }
    Reach-IsExclusive (later r step) = Step-IsExclusive step (Reach-IsExclusive r)
