-- ===== src/Prelude/Store.antt =====
-- Memory and C arrays of a fixed size as functions of the address or index.
use Prim.Native.Nat.{ℕ, zero, suc, ◌+◌, ◌≤◌, ◌<◌}
use mathlib.Core.Path.{◌≡◌, subst, refl, ap}
use mathlib.Core.Logic.{◌≢◌, inl, inr}
use native.Mathlib.Omega.{arith}
use misan.Prelude.Tests.{◌==◌, if◌then◌else◌, Bool-cases}

-- One write.
unfoldable pub update {ℓ} : {A : Type ℓ} → (ℕ → A) → ℕ → A → ℕ → A
update f i v j = if j == i then v else f j

pub update_self {ℓ} : {A : Type ℓ} (f : ℕ → A) (i : ℕ) (v : A) → update f i v i ≡ v
unfolding update
update_self f i v = ground arith

pub update_ne {ℓ} : {A : Type ℓ} (f : ℕ → A) (i j : ℕ) (v : A) → j ≢ i → update f i v j ≡ f j
unfolding update
update_ne f i j v h = ground arith

-- What holds of every entry and of the value written still holds of every entry.
pub update_all {ℓ ℓ'} :
    {A : Type ℓ} (P : A → Type ℓ') (f : ℕ → A) (i : ℕ) (v : A)
    → ((j : ℕ) → P (f j))
    → P v
    → (j : ℕ) → P (update f i v j)
unfolding update
update_all P f i v all new j = elim (Bool-cases (j == i)) [
  | inl same ↦ rw same new
  | inr other ↦ rw other (all j)
]

-- What holds of every entry, at an entry that is known.
pub entry_all {ℓ ℓ'} :
    {A : Type ℓ} (P : A → Type ℓ') (f : ℕ → A) (i : ℕ) (v : A) → f i ≡ v → ((j : ℕ) → P (f j)) → P v
entry_all P f i v at all = subst P at (all i)

-- The sum of a measure over the first `n` entries.
unfoldable pub tally {ℓ} : {A : Type ℓ} → (A → ℕ) → ℕ → (ℕ → A) → ℕ
tally f zero s = 0
tally f (suc n) s = f (s n) + tally f n s

pub tally-le {ℓ} :
    {A : Type ℓ} (f : A → ℕ) (n : ℕ) (s : ℕ → A) → ((a : A) → f a ≤ 1) → tally f n s ≤ n
unfolding tally
tally-le f zero s small = omega arith
tally-le f (suc n) s small = omega (arith, tally-le f n s small, small (s n))

tally-beyond {ℓ} :
    {A : Type ℓ} (f : A → ℕ) (n : ℕ) (s : ℕ → A) (i : ℕ) (v : A)
    → n ≤ i
    → tally f n (update s i v) ≡ tally f n s
unfolding tally update
tally-beyond f zero s i v h = refl
tally-beyond f (suc n) s i v h = ground (arith, tally-beyond f n s i v)

pub tally-update {ℓ} :
    {A : Type ℓ} (f : A → ℕ) (n : ℕ) (s : ℕ → A) (i : ℕ) (v : A)
    → i < n
    → tally f n (update s i v) + f (s i) ≡ tally f n s + f v
unfolding tally update
tally-update f zero s i v h = omega arith
tally-update f (suc n) s i v h = elim (Bool-cases (n == i)) [
  | inl same ↦
      let at : n ≡ i = ground (arith, same) in
      let here : f (s n) ≡ f (s i) = ap (λ k. f (s k)) at in
      ground (arith, same, here, tally-beyond f n s i v (omega (arith, at)))
  | inr other ↦ ground (arith, other, tally-update f n s i v)
]
