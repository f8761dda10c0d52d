-- ===== src/Common/Bytes/Strings.antt =====
-- Strings in memory.
use misan.Prelude.{
  ℕ, zero, suc, ◌+◌, ◌^◌, ◌≤◌, ◌<◌, ◌≡◌, ◌≢◌, ◌↔◌, some, ◌==◌, u64, arith, refl, Bool-cases, inl,
  inr,
}
use misan.Common.Bytes.Blocks.{SameBytes, SameBytes-iff, add_zero}
use misan.Common.Bytes.{Memory, strlen_from, drt_strlen, drt_strcmp}

-- The string at `s` has `n` bytes before its terminator.
pub record HasLength (m : Memory) (s n : ℕ) : Type 0 where
  pub ends : m (s + n) ≡ 0
  pub bytes : (i : ℕ) → i < n → m (s + i) ≢ 0
  pub fits : s + n < 2 ^ 64

strlen_from_lem :
    (fuel : ℕ) (m : Memory) (s n k : ℕ)
    → HasLength m s n
    → k ≤ n
    → n < k + fuel
    → strlen_from fuel m s k ≡ some n
unfolding strlen_from
strlen_from_lem zero m s n k v le enough = absurd (omega arith)
strlen_from_lem (suc fuel) m s n k v le enough =
    let here : u64 (s + k) ≡ s + k = omega (arith, v.fits) in
    rw here (elim (Bool-cases (k == n)) [
      | inl last ↦ let e : k ≡ n = ground arith in rw e (ground (arith, v.ends))
      | inr more ↦ ground (arith, v.bytes k, strlen_from_lem fuel m s n (k + 1) v)
    ])

-- With more rounds than the string has bytes the length is found.
pub drt_strlen_lem :
    (fuel : ℕ) (m : Memory) (s n : ℕ) → HasLength m s n → n < fuel → drt_strlen fuel m s ≡ some n
unfolding drt_strlen
drt_strlen_lem fuel m s n v enough = strlen_from_lem fuel m s n 0 v (omega arith) (omega arith)

HasLength-suc : (m : Memory) (s n : ℕ) → HasLength m s (suc n) → HasLength m (s + 1) n
HasLength-suc m s n v = record {
  ends = let e : s + 1 + n ≡ s + suc n = omega arith in rw e v.ends;
  bytes =
      λ i lt. let e : s + 1 + i ≡ s + suc i = omega arith in rw e (v.bytes (suc i) (omega arith));
  fits = omega (arith, v.fits);
}

-- One of the strings ends here.
strcmp_end :
    (fuel : ℕ) (m : Memory) (a b n : ℕ)
    → n ≡ 0
    → m a ≡ 0
    → (drt_strcmp (suc fuel) m a b ≡ some (m a, m b)) × ((m a ≡ m b) ↔ SameBytes m a b (suc n))
unfolding drt_strcmp
strcmp_end fuel m a b n e ends = (
  ground (arith, ends),
  (
    λ same. (SameBytes-iff m a b n).1 (same, λ i lt. absurd (omega arith)),
    λ h. ((SameBytes-iff m a b n).0 h).0,
  ),
)

-- With more rounds than the first string has bytes the comparison ends, and its two bytes are equal
-- exactly when the strings are, terminators included.
pub drt_strcmp_iff :
    (fuel : ℕ) (m : Memory) (a b n : ℕ)
    → HasLength m a n
    → b + n < 2 ^ 64
    → n < fuel
    → (x : ℕ) × (y : ℕ) × (drt_strcmp fuel m a b ≡ some (x, y))
      × ((x ≡ y) ↔ SameBytes m a b (suc n))
unfolding drt_strcmp
drt_strcmp_iff zero m a b n v fits enough = absurd (omega arith)
drt_strcmp_iff (suc fuel) m a b zero v fits enough =
    let ends : m a ≡ 0 = rw (add_zero a) at v.ends in
    let (run, iff) = strcmp_end fuel m a b 0 refl ends in (m a, m b, run, iff)
drt_strcmp_iff (suc fuel) m a b (suc n) v fits enough =
    let next : u64 (a + 1) ≡ a + 1 = omega (arith, v.fits) in
    let next' : u64 (b + 1) ≡ b + 1 = omega arith in
    let (x, y, run, iff) =
      drt_strcmp_iff fuel m (a + 1) (b + 1) n (HasLength-suc m a n v) (omega arith) (omega arith) in
    let split = SameBytes-iff m a b (suc n) in
    let inner : m a ≢ 0 = rw (add_zero a) at (v.bytes 0 (omega arith)) in
    elim (Bool-cases (m a == m b)) [
      | inl same ↦ (
        x,
        y,
        rw (next, next', same) (ground (arith, inner, run)),
        (λ e. split.1 (ground arith, iff.0 e), λ h. iff.1 (split.0 h).1),
      )
      | inr differ ↦ (
        m a,
        m b,
        rw (next, next', differ) (ground (arith, inner)),
        (λ e. absurd (ground arith), λ h. (split.0 h).0),
      )
    ]
