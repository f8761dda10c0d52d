-- ===== src/Common/Lock/Serial.antt =====
-- The critical sections, however their accesses are interleaved, have the effect of sections that
-- are performed as a whole, one after the other.
use misan.Prelude.{
  ℕ, false, List, [], ◌∷◌, ◌≡◌, if◌then◌else◌, update, update_all, entry_all, refl, arith,
  Bool-cases, inl, inr,
}
use misan.Common.Lock.{
  Place, outside, waiting, inside, System, run_section, try_lock, move_from, move, Step, call, go,
  Reach, start, later,
}
use misan.Common.Lock.Exclusion.{IsExclusive, Reach-IsExclusive}

module _ {S : Type 0} (IsSection : List (S → S) → Type 0) where
  -- The specification: whole sections, from a state on.
  pub data Serial (s₀ : S) : S → Type 0 where
    none_yet : Serial s₀ s₀
    perform :
        {a : S} (body : List (S → S))
        → Serial s₀ a
        → IsSection body
        → Serial s₀ (run_section body a)

  -- What a thread waits for is a section.
  abbrev pub IsCalled : Place S → Type 0
  IsCalled outside = Unit
  IsCalled (waiting body) = IsSection body
  IsCalled (inside rest) = Unit

  -- `a` is the state once the section that has begun is completed.
  pub record Refines (s₀ : S) (s : System S) (a : S) : Type 0 where
    pub serial : Serial s₀ a
    pub called : (i : ℕ) → IsCalled (s.place i)
    pub settled : s.lock ≡ false → s.shared ≡ a
    pub begun :
        (i : ℕ) (rest : List (S → S)) → s.place i ≡ inside rest → run_section rest s.shared ≡ a

  begin :
      (s₀ : S) (i : ℕ) (body : List (S → S)) (s : System S) (a : S)
      → s.place i ≡ waiting body
      → s.lock ≡ false
      → IsExclusive s
      → Refines s₀ s a
      → Refines s₀ (try_lock i body s) (run_section body a)
  unfolding try_lock update
  begin s₀ i body s a e free v r = record {
    serial = perform body r.serial (entry_all IsCalled s.place i (waiting body) e r.called);
    called =
        update_all IsCalled s.place i (if s.lock then waiting body else inside body) r.called
          (rw free tt);
    settled = λ h. cc h;
    begun = λ j rest h. ground (arith, r.settled free, v.free free j);
  }

  move_from-Refines :
      (s₀ : S) (p : Place S) (i : ℕ) (s : System S) (a : S)
      → s.place i ≡ p
      → IsExclusive s
      → Refines s₀ s a
      → (a' : S) × Refines s₀ (move_from p i s) a'
  unfolding move_from update
  move_from-Refines s₀ outside i s a e v r = (a, r)
  move_from-Refines s₀ (waiting body) i s a e v r = elim (Bool-cases s.lock) [
    | inl taken ↦ (
      a,
      record {
        serial = r.serial;
        called =
            update_all IsCalled s.place i (if s.lock then waiting body else inside body) r.called
              (rw taken (entry_all IsCalled s.place i (waiting body) e r.called));
        settled = λ h. cc h;
        begun = λ j more h. ground (arith, r.begun j more);
      },
    )
    | inr free ↦ (run_section body a, begin s₀ i body s a e free v r)
  ]
  move_from-Refines s₀ (inside (f ∷ rest)) i s a e v r = (
    a,
    record {
      serial = r.serial;
      called = update_all IsCalled s.place i (inside rest) r.called tt;
      settled = λ h. ground (arith, v.free h i);
      begun = λ j more h. ground (arith, r.begun i (f ∷ rest) e, v.alone i j);
    },
  )
  move_from-Refines s₀ (inside []) i s a e v r = (
    a,
    record {
      serial = r.serial;
      called = update_all IsCalled s.place i outside r.called tt;
      settled = λ h. r.begun i [] e;
      begun = λ j more h. ground (arith, v.alone i j);
    },
  )

  Step-Refines :
      (s₀ : S) {s t : System S} (a : S)
      → Step IsSection s t
      → IsExclusive s
      → Refines s₀ s a
      → (a' : S) × Refines s₀ t a'
  unfolding move update
  Step-Refines s₀ {s} a (call i body at is_section) v r = (
    a,
    record {
      serial = r.serial;
      called = update_all IsCalled s.place i (waiting body) r.called is_section;
      settled = r.settled;
      begun = λ j more h. ground (arith, r.begun j more);
    },
  )
  Step-Refines s₀ {s} a (go i) v r = move_from-Refines s₀ (s.place i) i s a refl v r

  Reach-Refines : (s₀ : S) {s : System S} → Reach IsSection s₀ s → (a : S) × Refines s₀ s a
  Reach-Refines s₀ start = (
    s₀,
    record { serial = none_yet; called = λ i. tt; settled = λ h. refl; begun = λ i rest h. cc h },
  )
  Reach-Refines s₀ (later r step) =
      let (a, refines) = Reach-Refines s₀ r in
      Step-Refines s₀ a step (Reach-IsExclusive IsSection r) refines

  -- However the threads' accesses are interleaved, in every reachable state in which the spin
  -- lock is free the shared state is one that whole critical sections of the program reach, one
  -- after the other.
  pub Reach-Serial :
      (s₀ : S) (s : System S) → Reach IsSection s₀ s → s.lock ≡ false → Serial s₀ s.shared
  Reach-Serial s₀ s r free =
      let (a, refines) = Reach-Refines s₀ r in rw (refines.settled free) refines.serial
