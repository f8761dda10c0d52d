-- ===== src/Common/Number/Strings.antt =====
-- The output of strings.
use misan.Prelude.{ℕ, ◌≡◌, ◌≢◌, List, [], ◌∷◌, ◌++◌, All, done, refl, arith}
use misan.Common.Number.{print_string, drt_puts}

-- A byte of a string before its terminator.
abbrev pub IsByte : ℕ → Type 0
IsByte c = c ≢ 0

pub drt_puts_lem : (s : List ℕ) → All IsByte s → drt_puts (s ++ 0 ∷ []) ≡ done s tt
unfolding drt_puts print_string
drt_puts_lem [] bytes = refl
drt_puts_lem (c ∷ s) bytes = ground (arith, drt_puts_lem s bytes.1)
