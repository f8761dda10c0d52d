-- ===== src/Ubsan/Location.antt =====
-- What the printed location of a report says.
use misan.Prelude.{
  ℕ, ◌^◌, ◌<◌, ◌≡◌, false, List, [], ◌∷◌, ◌++◌, some, done, All, refl, u32, arith, inl,
}
use mathlib.Core.Path.{subst}
use mathlib.Core.List.{reverse, append-nil}
use misan.Common.Number.Strings.{IsByte, drt_puts_lem}
use misan.Common.Number.Digits.{AreDigits}
use misan.Common.Number.Padding.{drt_putn-AreDigits}
use misan.Common.Printf.{drt_printf, drt_vprintf, format_rounds, format_step, convert}
use misan.Ubsan.{ubsan_print_location}

module _ (fuel : ℕ) (pos : 0 < fuel) where
  -- The printed location of a report is the name of the file, the line and the column between
  -- colons; the digits of line and column, read backwards, are their numbers.
  pub ubsan_print_location_lem :
      (filename : List ℕ) (line column : ℕ)
      → All IsByte filename
      → line < 2 ^ 32
      → column < 2 ^ 32
      → (line_digits : List ℕ) × (column_digits : List ℕ) × (ubsan_print_location fuel
            (some (record { filename = some (filename ++ 0 ∷ []); line = line; column = column }))
          ≡ done (filename ++ b':' ∷ (reverse line_digits ++ b':' ∷ reverse column_digits)) tt)
        × AreDigits false 10 line line_digits
        × AreDigits false 10 column column_digits
  unfolding ubsan_print_location drt_printf drt_vprintf format_rounds format_step convert
  ubsan_print_location_lem filename line column bytes small small' =
      let same : u32 line ≡ line = omega arith in
      let same' : u32 column ≡ column = omega arith in
      let (ls, run, value) =
        drt_putn-AreDigits fuel 10 (u32 line) 0 b' ' false (inl refl) (omega arith) pos
          (inl (omega arith)) in
      let (cs, run', value') =
        drt_putn-AreDigits fuel 10 (u32 column) 0 b' ' false (inl refl) (omega arith) pos
          (inl (omega arith)) in
      (
        ls,
        cs,
        rw (drt_puts_lem filename bytes) (rw (run, run') (simp append-nil refl)),
        subst (λ n. AreDigits false 10 n ls) same value,
        subst (λ n. AreDigits false 10 n cs) same' value',
      )
