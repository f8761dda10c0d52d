-- ===== src/Prelude/Bits.antt =====
-- Masks as arithmetic: `a & 7`, and `a & ~7` on 64 bits.
use Prim.Native.Nat.{
  ℕ, zero, suc, ◌+◌, ◌-◌, ◌*◌, ◌/◌, ◌%◌, ◌^◌, ◌≤◌, ◌<◌, min, bit_and, digits, bit_and-bitwise,
}
use mathlib.Core.Path.{◌≡◌, refl, ap, ◌∙◌}
use native.Mathlib.Nat.{pow-suc, one-le-pow}
use native.Mathlib.Omega.{arith}

-- The bits that `x` shares with `mask` are `v`, with any number of rounds that is enough.
abbrev Shares : ℕ → ℕ → ℕ → Type 0
Shares x mask v = (rounds : ℕ) → x ≤ rounds → digits (λ _. 0) min rounds x mask ≡ v

-- From all bits but the lowest to all bits.
Shares-double :
    (x mask v : ℕ) → Shares (x / 2) (mask / 2) v → Shares x mask (v * 2 + min (x % 2) (mask % 2))
Shares-double zero mask v above zero enough = omega (arith, above zero (omega arith))
Shares-double (suc x) mask v above zero enough = absurd (omega arith)
Shares-double zero mask v above (suc rounds) enough = omega (arith, above zero (omega arith))
Shares-double (suc x) mask v above (suc rounds) enough = omega (arith, above rounds (omega arith))

Shares-none : (x : ℕ) → Shares x 0 0
Shares-none zero zero enough = refl
Shares-none (suc x) zero enough = refl
Shares-none zero (suc rounds) enough = refl
Shares-none (suc x) (suc rounds) enough =
    omega (arith, Shares-none (suc x / 2) rounds (omega arith))

-- A mask of `k` ones leaves a number of `k` bits as it is.
Shares-ones : (k x : ℕ) → x < 2 ^ k → Shares x (2 ^ k - 1) x
Shares-ones zero x small rounds enough = Shares-none x rounds enough ∙ omega arith
Shares-ones (suc k) x small rounds enough =
    Shares-double x (2 ^ suc k - 1) (x / 2)
      (λ n le.
        ap (λ (mask : ℕ). digits (λ _. 0) min n (x / 2) mask) half
        ∙ Shares-ones k (x / 2) (omega (arith, pow-suc 2 k)) n le)
      rounds enough
    ∙ omega (arith, twice)
  where
    twice : 2 ^ suc k - 1 ≡ (2 ^ k - 1) * 2 + 1
    twice = omega (arith, pow-suc 2 k, one-le-pow k 2)

    half : (2 ^ suc k - 1) / 2 ≡ 2 ^ k - 1
    half = omega (arith, twice)

Shares-bit_and : (x mask v : ℕ) → Shares x mask v → bit_and x mask ≡ v
Shares-bit_and x mask v shares = bit_and-bitwise x mask ∙ shares x (omega arith)

pub bit_and_seven : (a : ℕ) → bit_and a 7 ≡ a % 8
bit_and_seven a =
    Shares-bit_and a 7 _ (
      Shares-double a 7 _
        (Shares-double (a / 2) 3 _ (Shares-double (a / 2 / 2) 1 0 (Shares-none (a / 2 / 2 / 2)))))
    ∙ omega arith

-- `a & ~7` rounds down to a multiple of 8.
pub bit_and-not_seven : (a : ℕ) → a < 2 ^ 64 → bit_and a (2 ^ 64 - 1 - 7) ≡ a / 8 * 8
bit_and-not_seven a small =
    Shares-bit_and a (2 ^ 64 - 8) _ (
      Shares-double a (2 ^ 64 - 8) _ (
        Shares-double (a / 2) (2 ^ 63 - 4) _ (
          Shares-double (a / 2 / 2) (2 ^ 62 - 2) (a / 2 / 2 / 2)
            (Shares-ones 61 (a / 2 / 2 / 2) (omega arith)))))
    ∙ omega arith
