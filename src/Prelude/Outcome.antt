-- ===== src/Prelude/Outcome.antt =====
-- How a call of a C function ends, with the bytes that it printed before.
use Prim.Native.Nat.{ℕ}
use mathlib.Core.Path.{◌≡◌, refl, ◌∙◌}
use mathlib.Core.Logic.{◌↔◌}
use mathlib.Core.Bool.{Bool, true, false}
use mathlib.Core.List.{List, [], ◌++◌, ◌∷◌}

pub data Exec {ℓ} (A : Type ℓ) : Type ℓ where
  -- it returned a value
  done : List ℕ → A → Exec A
  -- it called `drt_arch_abort`, which does not return
  aborted : List ℕ → Exec A
  -- it was still in a loop when the fuel was used up
  spinning : List ℕ → Exec A
  -- it did what C leaves undefined
  fault : List ℕ → Exec A

-- The bytes that were printed before.
abbrev pub after {ℓ} : {A : Type ℓ} → List ℕ → Exec A → Exec A
after o (done p a) = done (o ++ p) a
after o (aborted p) = aborted (o ++ p)
after o (spinning p) = spinning (o ++ p)
after o (fault p) = fault (o ++ p)

infixl 5 ◌>>=◌ ◌>>◌
abbrev pub ◌>>=◌ {ℓ κ} : {A : Type ℓ} {B : Type κ} → Exec A → (A → Exec B) → Exec B
done o a >>= f = after o (f a)
aborted o >>= f = aborted o
spinning o >>= f = spinning o
fault o >>= f = fault o

abbrev pub ◌>>◌ {ℓ} : {B : Type ℓ} → Exec (Unit {0}) → Exec B → Exec B
m >> k = m >>= λ _. k

abbrev pub pure {ℓ} : {A : Type ℓ} → A → Exec A
pure a = done [] a

-- `drt_arch_abort`.
abbrev pub abort {ℓ} : {A : Type ℓ} → Exec A
abort = aborted []

-- The call returns.
abbrev pub returns {ℓ} : {A : Type ℓ} → Exec A → Bool
returns (done o a) = true
returns (aborted o) = false
returns (spinning o) = false
returns (fault o) = false

pub returns-after {ℓ} : {A : Type ℓ} (o : List ℕ) (m : Exec A) → returns (after o m) ≡ returns m
returns-after o (done p a) = refl
returns-after o (aborted p) = refl
returns-after o (spinning p) = refl
returns-after o (fault p) = refl

-- What ends in a call that does not return does not return.
pub returns->>= {ℓ κ} :
    {A : Type ℓ} {B : Type κ} (m : Exec A) (f : A → Exec B)
    → ((a : A) → returns (f a) ≡ false)
    → returns (m >>= f) ≡ false
returns->>= (done o a) f h = returns-after o (f a) ∙ h a
returns->>= (aborted o) f h = refl
returns->>= (spinning o) f h = refl
returns->>= (fault o) f h = refl

-- A call that does not return takes what is behind it along.
pub returns-stopped {ℓ κ} :
    {A : Type ℓ} {B : Type κ} (m : Exec A) (f : A → Exec B)
    → returns m ≡ false
    → returns (m >>= f) ≡ false
returns-stopped (done o a) f h = cc h
returns-stopped (aborted o) f h = refl
returns-stopped (spinning o) f h = refl
returns-stopped (fault o) f h = refl

-- After a call that does not return nothing matters.
pub >>=-stopped {ℓ κ} :
    {A : Type ℓ} {B : Type κ} (m : Exec A) (f g : A → Exec B)
    → returns m ≡ false
    → (m >>= f) ≡ (m >>= g)
>>=-stopped (done o a) f g h = cc h
>>=-stopped (aborted o) f g h = refl
>>=-stopped (spinning o) f g h = refl
>>=-stopped (fault o) f g h = refl

pub returns_iff {ℓ} :
    {A : Type ℓ} (m : Exec A) → (returns m ≡ true) ↔ ((o : List ℕ) × (a : A) × (m ≡ done o a))
returns_iff (done o a) = ((λ h. (o, a, refl)), (λ d. refl))
returns_iff (aborted o) = ((λ h. cc), (λ d. cc d.2))
returns_iff (spinning o) = ((λ h. cc), (λ d. cc d.2))
returns_iff (fault o) = ((λ h. cc), (λ d. cc d.2))

pub after-nil {ℓ} : {A : Type ℓ} (m : Exec A) → after [] m ≡ m
after-nil (done o a) = refl
after-nil (aborted o) = refl
after-nil (spinning o) = refl
after-nil (fault o) = refl

pub after-cons {ℓ} :
    {A : Type ℓ} (c : ℕ) (s : List ℕ) (m : Exec A) → after (c ∷ []) (after s m) ≡ after (c ∷ s) m
after-cons c s (done o a) = refl
after-cons c s (aborted o) = refl
after-cons c s (spinning o) = refl
after-cons c s (fault o) = refl
