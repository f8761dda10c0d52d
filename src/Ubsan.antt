-- ===== src/Ubsan.antt =====
-- src/ubsan/ubsan_handlers.c. Strings are lists of bytes with their terminator, and a null pointer is `none`.
pub mod Data
pub mod Aborts
pub mod Report
pub mod Endings
pub mod Location
pub mod Texts
use misan.Prelude.{
  ℕ, Bool, true, false, List, [], ◌∷◌, Option, none, some, String, literal, Exec, ◌>>=◌, ◌>>◌, pure,
  abort,
}
use misan.Common.Number.{drt_puts}
use misan.Common.Printf.{Arg, word, text, drt_printf}
use misan.Common.Platform.{
  Machine, drt_arch_capture_stack_trace, drt_print_stack_trace, drt_spin_lock, drt_spin_unlock,
}
use misan.Ubsan.Data.{
  SourceLocation, TypeDescriptor, TypeMismatchData, OverflowData, ShiftOutOfBoundsData,
  OutOfBoundsData, VlaBoundData, InvalidValueData, TypeMismatchDataV1, ImplicitConversionData,
  NonnullArgData, PointerOverflowData, FunctionTypeMismatchData, FloatCastOverflowData,
}

module _ (fuel : ℕ) where
  unfoldable pub ubsan_print_location : Option SourceLocation → Exec (Unit {0})
  ubsan_print_location none = drt_puts (literal "<unknown>")
  ubsan_print_location (some loc) = elim loc.filename [
    | none ↦ drt_puts (literal "<unknown>")
    | some filename ↦
        drt_printf fuel "%s:%u:%u" (text filename ∷ word loc.line ∷ word loc.column ∷ [])
  ]

  unfoldable pub ubsan_print_type : Option TypeDescriptor → Exec (Unit {0})
  ubsan_print_type none = drt_puts (literal "<unknown type>")
  ubsan_print_type (some td) = drt_puts td.type_name

  -- `locked` says whether `ubsan_lock` is taken.
  module _ (machine : Machine) (locked : Bool) where
    unfoldable pub stack_text : Exec (Unit {0})
    stack_text = drt_print_stack_trace fuel (drt_arch_capture_stack_trace machine 2)

    -- The macro `UBSAN_HANDLE` up to the abort; the header is its first format with the name put in.
    unfoldable pub handle_text : String → Option SourceLocation → String → List Arg → Exec Bool
    unfolding drt_spin_lock drt_spin_unlock
    handle_text header location fmt args = do
      held ← drt_spin_lock locked
      drt_printf fuel header []
      ubsan_print_location location
      drt_puts (literal "\n")
      drt_printf fuel fmt args
      drt_puts (literal "\n")
      stack_text
      drt_spin_unlock held

    unfoldable pub ubsan_handle :
        String → Option SourceLocation → String → List Arg → Exec (Unit {0})
    ubsan_handle header location fmt args = handle_text header location fmt args >>= λ _. abort

    -- The macro `UBSAN_HANDLE_RECOVER` has the same text under its own header, and no abort.
    unfoldable pub ubsan_handle_recover :
        String → Option SourceLocation → String → List Arg → Exec Bool
    ubsan_handle_recover header location fmt args = handle_text header location fmt args

    unfoldable pub ubsan_handle_type_mismatch : TypeMismatchData → ℕ → Exec (Unit {0})
    ubsan_handle_type_mismatch d pointer = do
      ubsan_handle "\n==UBSAN: type mismatch==\n  Location: " d.location "  Pointer: %p  Type: "
          (word pointer ∷ [])
      ubsan_print_type d.type

    unfoldable pub ubsan_handle_type_mismatch_v1 : TypeMismatchDataV1 → ℕ → Exec (Unit {0})
    ubsan_handle_type_mismatch_v1 d pointer = do
      ubsan_handle "\n==UBSAN: type mismatch v1==\n  Location: " d.location
          "  Pointer: %p  Alignment: %u  Type check kind: %u  Type: "
          (word pointer ∷ word d.alignment ∷ word d.type_check_kind ∷ [])
      ubsan_print_type d.type

    -- The one handler that takes no lock and does not abort.
    unfoldable pub ubsan_handle_float_cast_overflow : FloatCastOverflowData → Exec (Unit {0})
    ubsan_handle_float_cast_overflow d = do
      ubsan_print_location (some d.location)
      drt_puts (literal "float cast overflow: From type: ")
      ubsan_print_type d.from_type
      drt_puts (literal " To type: ")
      ubsan_print_type d.to_type
      drt_puts (literal "\n")

    -- The body up to the abort.
    unfoldable pub function_type_mismatch_text : FunctionTypeMismatchData → Exec Bool
    unfolding drt_spin_lock drt_spin_unlock
    function_type_mismatch_text d = do
      held ← drt_spin_lock locked
      drt_printf fuel "\n==UBSAN: function type mismatch==\n  Location: " []
      ubsan_print_location (some d.location)
      drt_puts (literal "\n  Type: ")
      ubsan_print_type d.type
      drt_puts (literal "\n")
      stack_text
      drt_spin_unlock held

    unfoldable pub ubsan_handle_function_type_mismatch : FunctionTypeMismatchData → Exec (Unit {0})
    ubsan_handle_function_type_mismatch d = function_type_mismatch_text d >>= λ _. abort

    unfoldable pub ubsan_handle_add_overflow : OverflowData → Exec (Unit {0})
    ubsan_handle_add_overflow d = do
      ubsan_handle "\n==UBSAN: add overflow==\n  Location: " d.location "  Type: " []
      ubsan_print_type d.type

    unfoldable pub ubsan_handle_sub_overflow : OverflowData → Exec (Unit {0})
    ubsan_handle_sub_overflow d = do
      ubsan_handle "\n==UBSAN: sub overflow==\n  Location: " d.location "  Type: " []
      ubsan_print_type d.type

    unfoldable pub ubsan_handle_mul_overflow : OverflowData → Exec (Unit {0})
    ubsan_handle_mul_overflow d = do
      ubsan_handle "\n==UBSAN: mul overflow==\n  Location: " d.location "  Type: " []
      ubsan_print_type d.type

    unfoldable pub ubsan_handle_negate_overflow : OverflowData → Exec (Unit {0})
    ubsan_handle_negate_overflow d = do
      ubsan_handle "\n==UBSAN: negate overflow==\n  Location: " d.location "  Type: " []
      ubsan_print_type d.type

    unfoldable pub ubsan_handle_divrem_overflow : OverflowData → Exec (Unit {0})
    ubsan_handle_divrem_overflow d = do
      ubsan_handle "\n==UBSAN: divrem overflow==\n  Location: " d.location "  Type: " []
      ubsan_print_type d.type

    unfoldable pub ubsan_handle_shift_out_of_bounds : ShiftOutOfBoundsData → Exec (Unit {0})
    ubsan_handle_shift_out_of_bounds d = do
      ubsan_handle "\n==UBSAN: shift out of bounds==\n  Location: " d.location "  Left type: " []
      ubsan_print_type d.left_type
      drt_puts (literal "  Right type: ")
      ubsan_print_type d.right_type

    unfoldable pub ubsan_handle_out_of_bounds : OutOfBoundsData → Exec (Unit {0})
    ubsan_handle_out_of_bounds d = do
      ubsan_handle "\n==UBSAN: out of bounds==\n  Location: " d.location "  Array type: " []
      ubsan_print_type d.array_type
      drt_puts (literal "  Index type: ")
      ubsan_print_type d.index_type

    unfoldable pub ubsan_handle_vla_bound_not_positive : VlaBoundData → Exec (Unit {0})
    ubsan_handle_vla_bound_not_positive d = do
      ubsan_handle "\n==UBSAN: VLA bound not positive==\n  Location: " d.location "  Type: " []
      ubsan_print_type d.type

    unfoldable pub ubsan_handle_invalid_value : InvalidValueData → Exec (Unit {0})
    ubsan_handle_invalid_value d = do
      ubsan_handle "\n==UBSAN: invalid value==\n  Location: " d.location "  Type: " []
      ubsan_print_type d.type

    unfoldable pub ubsan_handle_invalid_builtin : InvalidValueData → Exec (Unit {0})
    ubsan_handle_invalid_builtin d = do
      ubsan_handle "\n==UBSAN: invalid builtin==\n  Location: " d.location "  Kind: %u  Type: "
          (word d.kind ∷ [])
      ubsan_print_type d.type

    unfoldable pub ubsan_handle_nonnull_arg : NonnullArgData → Exec (Unit {0})
    ubsan_handle_nonnull_arg d = do
      ubsan_handle "\n==UBSAN: non-null arg==\n  Location: " d.location
          "  Arg index: %d  Attribute location: " (word d.arg_index ∷ [])
      ubsan_print_location d.attr_location

    unfoldable pub ubsan_handle_implicit_conversion : ImplicitConversionData → Exec (Unit {0})
    ubsan_handle_implicit_conversion d = do
      ubsan_handle "\n==UBSAN: implicit conversion==\n  Location: " d.location
          "  Kind: %u  From type: " (word d.kind ∷ [])
      ubsan_print_type d.from_type
      drt_puts (literal "  To type: ")
      ubsan_print_type d.to_type

    unfoldable pub ubsan_handle_pointer_overflow : PointerOverflowData → ℕ → ℕ → Exec (Unit {0})
    ubsan_handle_pointer_overflow d base result = do
      ubsan_handle "\n==UBSAN: pointer overflow==\n  Location: " d.location "  Base: %p  Result: %p"
          (word base ∷ word result ∷ [])

    unfoldable pub builtin_unreachable_text : Option SourceLocation → Exec Bool
    unfolding drt_spin_lock drt_spin_unlock
    builtin_unreachable_text loc = do
      held ← drt_spin_lock locked
      drt_printf fuel "\n==UBSAN: builtin unreachable==\n  Location: " []
      ubsan_print_location loc
      drt_puts (literal "\n")
      stack_text
      drt_spin_unlock held

    unfoldable pub ubsan_handle_builtin_unreachable : Option SourceLocation → Exec (Unit {0})
    ubsan_handle_builtin_unreachable loc = builtin_unreachable_text loc >>= λ _. abort
