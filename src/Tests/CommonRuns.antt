-- ===== src/Tests/CommonRuns.antt =====
-- Numbers and formats that are printed.
use misan.Prelude.{
  All, ◌^◌, ◌*◌, ℕ, false, List, [], ◌∷◌, ◌++◌, ◌≡◌, inr, refl, arith, done, if◌then◌else◌, inl,
  ◌==◌,
}
use mathlib.Core.List.{reverse}
use misan.Common.Platform.{
  Machine, max_stack_frames, drt_arch_capture_stack_trace, drt_print_stack_trace,
}
use misan.Common.Platform.Traces.{drt_print_stack_trace-Spins}
use misan.Common.Platform.Frames.{chain, frame_behind, drt_arch_capture_stack_trace-chain}
use misan.Common.Printf.{format_rounds, word, drt_vprintf}
use misan.Common.Printf.Pieces.{
  Piece, byte, percent, signed, hex, string, char, int, long, IsFine, AreTexts, format_of, args_of,
}
use misan.Common.Printf.Texts.{drt_vprintf-AreTexts}
use misan.Common.Printf.Rounds.{HasEnd, drt_vprintf_enough}
use misan.Common.Number.{drt_putn}
use misan.Common.Number.Digits.{AreDigits}
use misan.Common.Number.Padding.{Spins, drt_putn-AreDigits}

drt_putn-AreDigits_example :
    (buf : List ℕ) × (drt_putn 9 0x1234 16 4 b'0' false ≡ done (reverse buf) tt)
    × AreDigits false 16 0x1234 buf
drt_putn-AreDigits_example =
    drt_putn-AreDigits 9 16 0x1234 4 b'0' false (inr refl) (omega arith) (omega arith)
      (inr (omega arith))

abbrev greeting : List ℕ
greeting = b'h' ∷ b'i' ∷ []

drt_print_stack_trace-Spins_example :
    Spins (drt_print_stack_trace 9 (0x401136 ∷ 0x7FFF12345678 ∷ []))
drt_print_stack_trace-Spins_example =
    drt_print_stack_trace-Spins 9 (omega arith) 0x401136 (omega arith) (0x7FFF12345678 ∷ [])

-- `%s: %d%lx%%%c` with the arguments "hi", -1, 2^40 and '!'.
abbrev pieces : List Piece
pieces =
    string greeting
    ∷ byte b':'
    ∷ byte b' '
    ∷ signed int 0xFFFFFFFF
    ∷ hex false long (2 ^ 40)
    ∷ percent
    ∷ char b'!'
    ∷ []

pieces-AreFine : All IsFine pieces
pieces-AreFine = (
  (λ e. omega arith, (λ e. omega arith, tt)),
  (
    (λ e. omega arith, λ e. omega arith),
    ((λ e. omega arith, λ e. omega arith), (λ e. omega arith, (tt, (tt, (λ e. omega arith, tt))))),
  ),
)

drt_vprintf-AreTexts_example :
    (o : List ℕ) × (drt_vprintf 9 (format_of pieces) (args_of pieces) ≡ done o tt)
    × AreTexts pieces o
drt_vprintf-AreTexts_example = drt_vprintf-AreTexts 9 (omega arith) pieces pieces-AreFine

-- `hi%u`
abbrev counting : List ℕ
counting = greeting ++ b'%' ∷ b'u' ∷ 0 ∷ []

counting-HasEnd : HasEnd counting
counting-HasEnd = inr (inr (inr (inr (inl refl))))

drt_vprintf_enough_example :
    format_rounds 9 50 counting (word 17 ∷ []) ≡ drt_vprintf 9 counting (word 17 ∷ [])
drt_vprintf_enough_example =
    drt_vprintf_enough 9 50 counting (word 17 ∷ []) counting-HasEnd (omega arith)

-- Three frames.
abbrev nested : Machine
nested = record {
  rbp = 4096;
  word_at =
      λ a. if a == 4096 then 4128 else if a == 4128 then 4160 else if a == 4160 then 0 else a * 2;
  tsc = 0;
}

drt_arch_capture_stack_trace-chain_example :
    drt_arch_capture_stack_trace nested 1
    ≡ chain max_stack_frames nested.word_at (frame_behind 1 nested.word_at nested.rbp)
drt_arch_capture_stack_trace-chain_example = drt_arch_capture_stack_trace-chain nested 1
