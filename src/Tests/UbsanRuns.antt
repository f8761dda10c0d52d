-- ===== src/Tests/UbsanRuns.antt =====
-- UndefinedBehaviorSanitizer: an overflow at a place in the source.
use misan.Prelude.{
  ◌&&◌, not, ℕ, ◌≡◌, false, List, [], ◌∷◌, ◌++◌, some, returns, refl, arith, aborted, codes,
}
use mathlib.Core.List.{reverse}
use misan.Common.Platform.{drt_arch_capture_stack_trace, walk_frames}
use misan.Ubsan.{ubsan_handle}
use misan.Ubsan.Texts.{ubsan_handle_lem}
use misan.Tests.{idle}
use misan.Common.Number.Digits.{AreDigits}
use misan.Ubsan.Data.{SourceLocation, TypeDescriptor}
use misan.Ubsan.Report.{Report, handle_abort, add_overflow, handle}
use misan.Ubsan.Endings.{recovers, forget_types, handlers_stop, handle-forget_types}

abbrev file_name : List ℕ
file_name = b'a' ∷ b'.' ∷ b'c' ∷ []

abbrev place : SourceLocation
place = record { filename = some (file_name ++ 0 ∷ []); line = 120; column = 7 }

abbrev int_type : TypeDescriptor
int_type = record { type_kind = 0; type_info = 11; type_name = b'i' ∷ b'n' ∷ b't' ∷ 0 ∷ [] }

abbrev overflow : Report
overflow = add_overflow (record { location = some place; type = some int_type })

handlers_stop_example :
    ((returns (handle 9 idle false overflow) && not (recovers overflow)) ≡ false)
    × (returns (handle_abort 9 idle false overflow) ≡ false)
handlers_stop_example = handlers_stop 9 idle false overflow

handle-forget_types_example :
    handle 9 idle false (add_overflow (record { location = some place; type = some int_type }))
    ≡ handle 9 idle false
        (forget_types (add_overflow (record { location = some place; type = some int_type })))
handle-forget_types_example =
    handle-forget_types 9 idle false
      (add_overflow (record { location = some place; type = some int_type }))

no_frames : drt_arch_capture_stack_trace idle 2 ≡ []
unfolding drt_arch_capture_stack_trace walk_frames
no_frames = refl

ubsan_handle_lem_example :
    (line_digits : List ℕ) × (column_digits : List ℕ) × (ubsan_handle 9 idle false
        "\n==UBSAN: add overflow==\n  Location: "
        (some place)
        "  Type: "
        []
      ≡ aborted (
          codes "\n==UBSAN: add overflow==\n  Location: "
          ++ ((file_name ++ b':' ∷ (reverse line_digits ++ b':' ∷ reverse column_digits))
              ++ (codes "\n" ++ (codes "  Type: " ++ codes "\nStack trace:\n")))))
    × AreDigits false 10 120 line_digits
    × AreDigits false 10 7 column_digits
ubsan_handle_lem_example =
    ubsan_handle_lem 9 idle (omega arith) "\n==UBSAN: add overflow==\n  Location: " "  Type: "
      file_name 120 7 (omega arith) (omega arith)
      (λ e. omega arith, (λ e. omega arith, (λ e. omega arith, tt))) (omega arith) (omega arith)
      no_frames
