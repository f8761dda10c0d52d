-- ===== src/Tsan/Table/Probing.antt =====
-- The probing loop: it visits every slot once.
use native.Mathlib.Decide.{dec_lt, ℕ_discrete}
use native.Mathlib.Nat.{mod-eq_of_lt, mod_self}
use misan.Prelude.{
  leb, ltb, ℕ, zero, suc, ◌+◌, ◌-◌, ◌%◌, Bool, true, Option, none, some, ◌==◌, if◌then◌else◌, ◌≡◌,
  ◌≢◌, ◌<◌, ◌⊎◌, inl, inr, arith, ap, ◌∙◌, Bool-cases, Option-cases,
}
use misan.Tsan.Table.{Slot, found, claimed, nowhere, probe}

-- What the end of the loop says of the table.
abbrev pub IsAnswer : (ℕ → Option ℕ) → ℕ → ℕ → Bool → Slot → Type 0
IsAnswer holds size addr alloc (found i) = (i < size) × (holds i ≡ some addr)
IsAnswer holds size addr alloc (claimed i) = (i < size) × (holds i ≡ none) × (alloc ≡ true)
IsAnswer holds size addr alloc nowhere =
    ((i : ℕ) → i < size → holds i ≢ some addr)
    × ((i : ℕ) → i < size → alloc ≡ true → holds i ≢ none)

next_mod : (x size : ℕ) → x < size → (x + 1) % size ≡ (if x + 1 == size then 0 else x + 1)
next_mod x size h = elim (dec_lt (x + 1) size) [
  | yes p ↦ ground (arith, mod-eq_of_lt p)
  | no p ↦ let e : x + 1 ≡ size = omega arith in ground (arith, e, mod_self size)
]

module _ (holds : ℕ → Option ℕ) (size : ℕ) (addr : ℕ) (alloc : Bool) (start : ℕ)
    (in_table : start < size) where
  -- The slot `k` steps from the start on.
  slot : ℕ → ℕ
  slot k = if ltb (start + k) size then start + k else start + k - size

  -- `k` rounds have passed over slots that were no answer.
  abbrev Passed : ℕ → Type 0
  Passed k = (j : ℕ) → j < k → (holds (slot j) ≢ some addr) × (alloc ≡ true → holds (slot j) ≢ none)

  slot-suc : (k : ℕ) → suc k < size → (slot k + 1) % size ≡ slot (suc k)
  unfolding slot
  slot-suc k h = ground (arith, next_mod (start + k) size, next_mod (start + k - size) size)

  slot-last : (k : ℕ) → suc k ≡ size → (slot k + 1) % size ≡ start
  unfolding slot
  slot-last k h = ground (arith, next_mod (start + k) size, next_mod (start + k - size) size)

  slot-ne : (k : ℕ) → 0 < k → k < size → slot k ≢ start
  unfolding slot
  slot-ne k p h = ground arith

  slot-zero : slot 0 ≡ start
  unfolding slot
  slot-zero = ground arith

  -- Every slot is one of the first `size` steps.
  steps : ℕ → ℕ
  steps i = if leb start i then i - start else i + size - start

  slot-steps : (i : ℕ) → i < size → (steps i < size) × (slot (steps i) ≡ i)
  unfolding slot steps
  slot-steps i h = ground arith

  slot-lt : (k : ℕ) → k < size → slot k < size
  unfolding slot
  slot-lt k h = ground arith

  nowhere-IsAnswer : Passed size → IsAnswer holds size addr alloc nowhere
  nowhere-IsAnswer passed = (
    λ i h. rw (slot-steps i h).1 at (passed (steps i) (slot-steps i h).0).0,
    λ i h on. rw (slot-steps i h).1 at ((passed (steps i) (slot-steps i h).0).1 on),
  )

  Passed-suc :
      (k : ℕ)
      → Passed k
      → holds (slot k) ≢ some addr
      → (alloc ≡ true → holds (slot k) ≢ none)
      → Passed (suc k)
  Passed-suc k passed other busy j h = elim (dec_lt j k) [
    | yes p ↦ passed j p
    | no p ↦ let e : j ≡ k = omega arith in rw e (other, busy)
  ]

  module _ (rounds k : ℕ) where
    probe-found :
        holds (slot k) ≡ some addr
        → probe holds size addr alloc (suc rounds) start (slot k) ≡ found (slot k)
    unfolding probe
    probe-found e = ground arith

    probe-claimed :
        holds (slot k) ≡ none
        → alloc ≡ true
        → probe holds size addr alloc (suc rounds) start (slot k) ≡ claimed (slot k)
    unfolding probe
    probe-claimed e on = ground arith

    probe-last :
        holds (slot k) ≢ some addr
        → (alloc ≡ true → holds (slot k) ≢ none)
        → suc k ≡ size
        → probe holds size addr alloc (suc rounds) start (slot k) ≡ nowhere
    unfolding probe
    probe-last other busy e = ground (arith, slot-last k e)

    probe-next :
        holds (slot k) ≢ some addr
        → (alloc ≡ true → holds (slot k) ≢ none)
        → suc k < size
        → probe holds size addr alloc (suc rounds) start (slot k)
          ≡ probe holds size addr alloc rounds start (slot (suc k))
    unfolding probe
    probe-next other busy lt =
        let e : (slot k + 1) % size ≡ slot (suc k) = slot-suc k lt in
        let ne : slot (suc k) ≢ start = slot-ne (suc k) (omega arith) lt in ground arith

  slot-cases :
      (k : ℕ)
      → (holds (slot k) ≡ some addr)
        ⊎ (((holds (slot k) ≡ none) × (alloc ≡ true))
            ⊎ ((holds (slot k) ≢ some addr) × (alloc ≡ true → holds (slot k) ≢ none)))
  slot-cases k = elim (Option-cases (holds (slot k))) [
    | inl e ↦ elim (Bool-cases alloc) [
      | inl on ↦ inr (inl (e, on))
      | inr off ↦ inr (inr ((λ h. cc), (λ h. cc)))
    ]
    | inr (a, e) ↦ elim (ℕ_discrete a addr) [
      | yes p ↦ inl (e ∙ ap some p)
      | no p ↦ inr (inr ((λ h. p (cc)), (λ on h. cc)))
    ]
  ]

  -- From any point of the walk on the loop finds the answer, within the rounds that are left.
  probe-walk :
      (rounds k : ℕ)
      → k + suc rounds ≡ size
      → Passed k
      → IsAnswer holds size addr alloc (probe holds size addr alloc (suc rounds) start (slot k))
  probe-walk zero k e passed = elim (slot-cases k) [
    | inl h ↦ rw (probe-found 0 k h) (slot-lt k (omega arith), h)
    | inr (inl h) ↦ rw (probe-claimed 0 k h.0 h.1) (slot-lt k (omega arith), h.0, h.1)
    | inr (inr h) ↦
        let full : suc k ≡ size = omega arith in
        rw (probe-last 0 k h.0 h.1 full)
          (nowhere-IsAnswer (rw full at (Passed-suc k passed h.0 h.1)))
  ]
  probe-walk (suc rounds) k e passed = elim (slot-cases k) [
    | inl h ↦ rw (probe-found (suc rounds) k h) (slot-lt k (omega arith), h)
    | inr (inl h) ↦ rw (probe-claimed (suc rounds) k h.0 h.1) (slot-lt k (omega arith), h.0, h.1)
    | inr (inr h) ↦
        rw (probe-next (suc rounds) k h.0 h.1 (omega arith))
          (probe-walk rounds (suc k) (omega arith) (Passed-suc k passed h.0 h.1))
  ]

-- With as many rounds as slots the probing loop gives a right answer from any slot: a slot that
-- has the address, or a free slot if it may take one, or else neither is in the table.
pub probe-IsAnswer :
    (holds : ℕ → Option ℕ) (size addr : ℕ) (alloc : Bool) (start : ℕ)
    → start < size
    → IsAnswer holds size addr alloc (probe holds size addr alloc size start start)
probe-IsAnswer holds zero addr alloc start h = absurd (omega arith)
probe-IsAnswer holds (suc rounds) addr alloc start h =
    rw (slot-zero holds (suc rounds) addr alloc start h) at (
      probe-walk holds (suc rounds) addr alloc start h rounds 0 (omega arith)
        (λ j lt. absurd (omega arith)))
