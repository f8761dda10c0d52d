-- ===== src/Common/Lock/Progress.antt =====
-- A thread that waits for the lock can get it.
use misan.Prelude.{
  ℕ, ◌+◌, true, false, List, [], ◌∷◌, ◌≡◌, ◌≢◌, length, ap, ◌∙◌, update, refl, arith, Bool-cases,
  inl, inr,
}
use misan.Common.Lock.{Place, outside, waiting, inside, System, move_from, move, go, Reach, later}
use misan.Common.Lock.Exclusion.{Reach-IsExclusive, is_inside}

module _ {S : Type 0} where
  -- The threads of the list move, one after the other.
  unfoldable pub move_all : List ℕ → System S → System S
  move_all [] s = s
  move_all (i ∷ is) s = move_all is (move i s)

  move_at : (p : Place S) (i : ℕ) (s : System S) → s.place i ≡ p → move i s ≡ move_from p i s
  unfolding move
  move_at p i s e = ap (λ (q : Place S). move_from q i s) e

  enter :
      (i : ℕ) (body : List (S → S)) (s : System S)
      → s.place i ≡ waiting body
      → s.lock ≡ false
      → (move i s).place i ≡ inside body
  unfolding move_from update
  enter i body s at free = rw (move_at (waiting body) i s at) (ground arith)

  -- The owner makes its accesses and gives the lock back, and the other thread takes it.
  drain :
      (rest : List (S → S)) (j i : ℕ) (body : List (S → S)) (s : System S)
      → i ≢ j
      → s.place j ≡ inside rest
      → s.place i ≡ waiting body
      → (js : List ℕ) × (length js ≡ length rest + 2) × ((move_all js s).place i ≡ inside body)
  unfolding move_all move_from update
  drain [] j i body s ne in_j at =
      let e = move_at (inside []) j s in_j in
      (j ∷ i ∷ [], refl, rw e (enter i body (move_from (inside []) j s) (ground arith) refl))
  drain (f ∷ rest) j i body s ne in_j at =
      let e = move_at (inside (f ∷ rest)) j s in_j in
      let (js, count, reached) =
        drain rest j i body (move_from (inside (f ∷ rest)) j s) ne (ground arith) (ground arith) in
      (j ∷ js, omega arith, ap (λ (t : System S). (move_all js t).place i) e ∙ reached)

  module _ (IsSection : List (S → S) → Type 0) where
    -- From every reachable state in which a thread waits for the spin lock, some order of moves
    -- of the threads takes it into its critical section.
    pub move_all-enters :
        (s₀ : S) (s : System S) (i : ℕ) (body : List (S → S))
        → Reach IsSection s₀ s
        → s.place i ≡ waiting body
        → (js : List ℕ) × ((move_all js s).place i ≡ inside body)
    unfolding move_all
    move_all-enters s₀ s i body r at = elim (Bool-cases s.lock) [
      | inl taken ↦
          let (j, in_j) = (Reach-IsExclusive IsSection r).held taken in
          owner (s.place j) j refl in_j
      | inr free ↦ (i ∷ [], enter i body s at free)
    ]
      where
        owner :
            (p : Place S) (j : ℕ)
            → s.place j ≡ p
            → is_inside p ≡ true
            → (js : List ℕ) × ((move_all js s).place i ≡ inside body)
        owner outside j e h = cc h
        owner (waiting more) j e h = cc h
        owner (inside rest) j e h =
            let (js, count, reached) =
              drain rest j i body s (λ same. ground (arith, ap s.place same)) e at in
            (js, reached)

    pub Reach-move_all :
        (s₀ : S) (js : List ℕ) (s : System S)
        → Reach IsSection s₀ s
        → Reach IsSection s₀ (move_all js s)
    unfolding move_all
    Reach-move_all s₀ [] s r = r
    Reach-move_all s₀ (j ∷ js) s r = Reach-move_all s₀ js (move j s) (later r (go j))
