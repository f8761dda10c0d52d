-- ===== src/Ubsan/Texts.antt =====
-- The whole text of a report.
use misan.Prelude.{
  ℕ, ◌^◌, ◌<◌, ◌≡◌, false, List, [], ◌∷◌, ◌++◌, some, String, codes, aborted, All, refl,
}
use mathlib.Core.List.{reverse, append-nil}
use misan.Common.Number.{drt_puts}
use misan.Common.Number.Digits.{AreDigits}
use misan.Common.Printf.Ends.{IsPlain, drt_printf-plain}
use misan.Common.Platform.{
  Machine, drt_spin_lock, drt_spin_unlock, drt_arch_capture_stack_trace, drt_print_stack_trace,
  print_frames,
}
use misan.Ubsan.{ubsan_handle, handle_text, stack_text}
use misan.Ubsan.Location.{ubsan_print_location_lem}
use misan.Common.Number.Strings.{IsByte}

module _ (fuel : ℕ) (machine : Machine) (pos : 0 < fuel) (header fmt : String) where
  -- With the lock free, no return address behind the two that are skipped, a header and a format
  -- without directives, and a location in a named file with a line and a column below 2^32, the
  -- body that the handlers share ends in the abort, and what it has printed is the header, the
  -- file, line and column between colons in decimal digits, the format, and the title of an empty
  -- stack trace.
  pub ubsan_handle_lem :
      (filename : List ℕ) (line column : ℕ)
      → All IsPlain (codes header)
      → All IsPlain (codes fmt)
      → All IsByte filename
      → line < 2 ^ 32
      → column < 2 ^ 32
      → drt_arch_capture_stack_trace machine 2 ≡ []
      → (line_digits : List ℕ) × (column_digits : List ℕ) × (ubsan_handle fuel machine false header
            (some (record { filename = some (filename ++ 0 ∷ []); line = line; column = column }))
            fmt
            []
          ≡ aborted (
              codes header
              ++ ((filename ++ b':' ∷ (reverse line_digits ++ b':' ∷ reverse column_digits))
                  ++ (codes "\n" ++ (codes fmt ++ codes "\nStack trace:\n")))))
        × AreDigits false 10 line line_digits
        × AreDigits false 10 column column_digits
  unfolding ubsan_handle handle_text stack_text drt_spin_lock drt_spin_unlock drt_print_stack_trace
      print_frames drt_puts
  ubsan_handle_lem filename line column plain plain' bytes small small' alone =
      let (ls, cs, run, value, value') =
        ubsan_print_location_lem fuel pos filename line column bytes small small' in
      (
        ls,
        cs,
        rw (drt_printf-plain fuel header [] plain, run, drt_printf-plain fuel fmt [] plain', alone)
            (simp append-nil refl),
        value,
        value',
      )
