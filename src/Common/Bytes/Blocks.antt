-- ===== src/Common/Bytes/Blocks.antt =====
-- Blocks of memory.
use misan.Prelude.{
  ◌%◌, ℕ, zero, suc, ◌+◌, ◌-◌, ◌^◌, ◌≤◌, ◌<◌, ◌≡◌, ◌↔◌, ◌⊎◌, ◌&&◌, ◌==◌, ltb, leb, if◌then◌else◌,
  u8, u64, update, arith, refl, Bool-cases, inl, inr,
}
use misan.Common.Bytes.{Memory, drt_memset, drt_memcpy, drt_memcmp}

-- Exactly the bytes of the block are set.
pub drt_memset_lem :
    (n : ℕ) (m : Memory) (d c x : ℕ)
    → d + n < 2 ^ 64
    → drt_memset m d c n x ≡ (if leb d x && ltb x (d + n) then c % 256 else m x)
unfolding drt_memset update
drt_memset_lem zero m d c x fits = ground arith
drt_memset_lem (suc n) m d c x fits =
    let next : u64 (d + 1) ≡ d + 1 = omega arith in
    rw next (ground (arith, drt_memset_lem n (update m d (u8 c)) (d + 1) c x))

-- A copy gives each byte of the destination the byte that the source had, and changes nothing
-- else, if the blocks do not go round the end of the address space and the destination does not
-- begin inside the source.
pub drt_memcpy_lem :
    (n : ℕ) (m : Memory) (d s x : ℕ)
    → d + n < 2 ^ 64
    → s + n < 2 ^ 64
    → (d ≤ s) ⊎ (s + n ≤ d)
    → drt_memcpy m d s n x ≡ (if leb d x && ltb x (d + n) then m (s + (x - d)) else m x)
unfolding drt_memcpy update
drt_memcpy_lem zero m d s x fits fits' apart = ground arith
drt_memcpy_lem (suc n) m d s x fits fits' apart =
    let next : u64 (d + 1) ≡ d + 1 = omega arith in
    let next' : u64 (s + 1) ≡ s + 1 = omega arith in
    rw (next, next')
      (ground (arith, drt_memcpy_lem n (update m d (m s)) (d + 1) (s + 1) x, shifted s d x))
  where
    shifted : (s d x : ℕ) → d + 1 ≤ x → s + 1 + (x - (d + 1)) ≡ s + (x - d)
    shifted s d x h = omega arith

-- The `n` bytes at `a` and at `b` are the same.
abbrev pub SameBytes : Memory → ℕ → ℕ → ℕ → Type 0
SameBytes m a b n = (i : ℕ) → i < n → m (a + i) ≡ m (b + i)

add_shift : (a i : ℕ) → a + 1 + i ≡ a + suc i
add_shift a i = omega arith

pub add_zero : (a : ℕ) → a + 0 ≡ a
add_zero a = omega arith

SameBytes-cons :
    (m : Memory) (a b n : ℕ) → m a ≡ m b → SameBytes m (a + 1) (b + 1) n → SameBytes m a b (suc n)
SameBytes-cons m a b n here later zero lt = rw (add_zero a, add_zero b) here
SameBytes-cons m a b n here later (suc i) lt =
    rw (← add_shift a i, ← add_shift b i) (later i (omega arith))

SameBytes-head : (m : Memory) (a b n : ℕ) → SameBytes m a b (suc n) → m a ≡ m b
SameBytes-head m a b n h = rw (add_zero a, add_zero b) at (h 0 (omega arith))

SameBytes-tail : (m : Memory) (a b n : ℕ) → SameBytes m a b (suc n) → SameBytes m (a + 1) (b + 1) n
SameBytes-tail m a b n h i lt = rw (add_shift a i, add_shift b i) (h (suc i) (omega arith))

-- The first bytes and the rest.
pub SameBytes-iff :
    (m : Memory) (a b n : ℕ)
    → SameBytes m a b (suc n) ↔ ((m a ≡ m b) × SameBytes m (a + 1) (b + 1) n)
SameBytes-iff m a b n =
    (λ h. (SameBytes-head m a b n h, SameBytes-tail m a b n h), λ h. SameBytes-cons m a b n h.0 h.1)

-- The results are equal exactly when the blocks are.
pub drt_memcmp_iff :
    (n : ℕ) (m : Memory) (a b : ℕ)
    → a + n < 2 ^ 64
    → b + n < 2 ^ 64
    → ((drt_memcmp m a b n).0 ≡ (drt_memcmp m a b n).1) ↔ SameBytes m a b n
unfolding drt_memcmp
drt_memcmp_iff zero m a b fits fits' = (λ e i lt. absurd (omega arith), λ h. refl)
drt_memcmp_iff (suc n) m a b fits fits' =
    let next : u64 (a + 1) ≡ a + 1 = omega arith in
    let next' : u64 (b + 1) ≡ b + 1 = omega arith in
    let ih = drt_memcmp_iff n m (a + 1) (b + 1) (omega arith) (omega arith) in
    let split = SameBytes-iff m a b n in
    elim (Bool-cases (m a == m b)) [
      | inl same ↦
          rw (next, next', same) (λ e. split.1 (ground arith, ih.0 e), λ h. ih.1 (split.0 h).1)
      | inr differ ↦
          rw (next, next', differ)
            (λ e. absurd (ground arith), λ h. absurd (let e = (split.0 h).0 in ground arith))
    ]
