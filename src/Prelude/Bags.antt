-- ===== src/Prelude/Bags.antt =====
-- Lists of numbers up to order, as a quotient.
use Prim.Native.Nat.{ℕ, ◌+◌, ◌-◌}
use mathlib.Core.Path.{◌≡◌}
use mathlib.Core.List.{List, [], ◌∷◌}
use mathlib.Core.Quot
use mathlib.Core.Quot.{Quot, Quot-set}
use native.Mathlib.Nat.{ℕ_set}
use native.Mathlib.Omega.{arith}
use misan.Prelude.Tests.{◌==◌, if◌then◌else◌}

-- How often a number is in a list.
abbrev pub occurs : ℕ → List ℕ → ℕ
occurs q [] = 0
occurs q (x ∷ xs) = (if x == q then 1 else 0) + occurs q xs

abbrev IsReordering : List ℕ → List ℕ → Type 0
IsReordering xs ys = (q : ℕ) → occurs q xs ≡ occurs q ys

abbrev pub Bag : Type 0
Bag = Quot IsReordering

abbrev pub bag_of : List ℕ → Bag
bag_of = Quot.mk

unfoldable pub multiplicity : ℕ → Bag → ℕ
multiplicity q = Quot.lift ℕ_set (occurs q) (λ xs ys same. same q)

-- A list with one occurrence less, if there is one.
unfoldable drop_one : ℕ → List ℕ → List ℕ
drop_one q [] = []
drop_one q (x ∷ xs) = let rest = drop_one q xs in if x == q then xs else x ∷ rest

occurs-drop_one :
    (p q : ℕ) (xs : List ℕ) → occurs p (drop_one q xs) ≡ occurs p xs - (if p == q then 1 else 0)
unfolding drop_one
occurs-drop_one p q [] = ground arith
occurs-drop_one p q (x ∷ xs) = ground (arith, occurs-drop_one p q xs)

pub put_in : ℕ → Bag → Bag
put_in x =
    Quot.lift Quot-set (λ xs. bag_of (x ∷ xs))
      (λ xs ys same. Quot.sound (λ q. omega (arith, same q)))

pub take_out : ℕ → Bag → Bag
take_out x =
    Quot.lift Quot-set (λ xs. bag_of (drop_one x xs))
      (λ xs ys same.
        Quot.sound (λ q. omega (arith, same q, occurs-drop_one q x xs, occurs-drop_one q x ys)))

pub multiplicity-put_in :
    (q x : ℕ) (b : Bag) → multiplicity q (put_in x b) ≡ multiplicity q b + (if q == x then 1 else 0)
unfolding multiplicity put_in
multiplicity-put_in q x = Quot.ind (λ b. ℕ_set _ _) (λ xs. ground arith)

pub multiplicity-take_out :
    (q x : ℕ) (b : Bag)
    → multiplicity q (take_out x b) ≡ multiplicity q b - (if q == x then 1 else 0)
unfolding multiplicity take_out
multiplicity-take_out q x = Quot.ind (λ b. ℕ_set _ _) (occurs-drop_one q x)

-- Bags that hold everything as often are equal.
pub Bag-ext : (a b : Bag) → ((q : ℕ) → multiplicity q a ≡ multiplicity q b) → a ≡ b
unfolding multiplicity
Bag-ext = Quot.ind (λ a. hlevel Quot-set) (λ xs. Quot.ind (λ b. hlevel Quot-set) (λ ys. Quot.sound))
