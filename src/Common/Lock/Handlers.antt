-- ===== src/Common/Lock/Handlers.antt =====
-- Handlers between threads: a thread enters a critical section when the code of its handler gets past
-- its first access, whatever that is; that this waits for the lock is a property of the handlers.
use misan.Prelude.{
  ℕ, Bool, true, false, List, ◌≡◌, if◌then◌else◌, update, ap, sym, ◌∙◌, Bool-cases, inl, inr,
}
use mathlib.Core.Path.{subst}
use misan.Common.Lock.{Place, outside, waiting, inside, System, try_lock, move_from, move}
use misan.Common.Lock

-- `IsHandler` says which sections the handlers have, and `Spins` that the handler of a section, begun
-- with the lock as it is given, is in the loop of `drt_spin_lock`.
module _ {S : Type 0} (IsHandler : List (S → S) → Type 0)
    (Spins : (body : List (S → S)) → IsHandler body → S → Bool → Type 0) where
  pub data Step (s : System S) : System S → Type 0 where
    -- a thread calls a handler
    call :
        (i : ℕ) (body : List (S → S))
        → s.place i ≡ outside
        → IsHandler body
        → Step s (record s { place = update s.place i (waiting body) })
    -- its handler does not spin
    enter :
        (i : ℕ) (body : List (S → S)) (h : IsHandler body)
        → s.place i ≡ waiting body
        → ¬ Spins body h s.shared s.lock
        → Step s (record s { lock = true; place = update s.place i (inside body) })
    -- an access of a section, or `drt_spin_unlock` behind the last one
    go : (i : ℕ) (rest : List (S → S)) → s.place i ≡ inside rest → Step s (move i s)

  pub data Reach (s₀ : S) : System S → Type 0 where
    start : Reach s₀ (record { shared = s₀; lock = false; place = λ i. outside })
    later : {s t : System S} → Reach s₀ s → Step s t → Reach s₀ t

  module _ (waits : (body : List (S → S)) (h : IsHandler body) (s : S) → Spins body h s true) where
    -- With the lock free the entry is a round of the loop of `drt_spin_lock`.
    entered :
        (i : ℕ) (body : List (S → S)) (s : System S)
        → s.place i ≡ waiting body
        → s.lock ≡ false
        → move i s ≡ record s { lock = true; place = update s.place i (inside body) }
    unfolding move move_from try_lock
    entered i body s at free =
        ap (λ p. move_from p i s) at
        ∙ ap
            (λ (b : Bool). record s {
              lock = true;
              place = update s.place i (if b then waiting body else inside body);
            })
            free

    Step-Lock : {s t : System S} → Step s t → Lock.Step IsHandler s t
    Step-Lock {s} (call i body at h) = Lock.call i body at h
    Step-Lock {s} (go i rest at) = Lock.go i
    Step-Lock {s} (enter i body h at past) = elim (Bool-cases s.lock) [
      | inl taken ↦
          absurd (past (subst (λ b. Spins body h s.shared b) (sym taken) (waits body h s.shared)))
      | inr free ↦ subst (λ t. Lock.Step IsHandler s t) (entered i body s at free) (Lock.go i)
    ]

    -- Where every handler waits for the lock, the system is that of the spin lock.
    pub Reach-Lock : {s₀ : S} {s : System S} → Reach s₀ s → Lock.Reach IsHandler s₀ s
    Reach-Lock start = Lock.start
    Reach-Lock (later r step) = Lock.later (Reach-Lock r) (Step-Lock step)
