-- ===== src/Ubsan/Aborts.antt =====
-- The `_abort` variants of src/ubsan/ubsan_handlers.c: each calls its handler, and one aborts after it.
use misan.Prelude.{ℕ, Bool, Option, Exec, ◌>>◌, abort}
use misan.Common.Platform.{Machine}
use misan.Ubsan.Data.{
  SourceLocation, TypeMismatchData, OverflowData, ShiftOutOfBoundsData, OutOfBoundsData,
  VlaBoundData, InvalidValueData, TypeMismatchDataV1, ImplicitConversionData, NonnullArgData,
  PointerOverflowData, FunctionTypeMismatchData, FloatCastOverflowData,
}
use misan.Ubsan.{
  ubsan_handle_type_mismatch, ubsan_handle_type_mismatch_v1, ubsan_handle_float_cast_overflow,
  ubsan_handle_function_type_mismatch, ubsan_handle_add_overflow, ubsan_handle_sub_overflow,
  ubsan_handle_mul_overflow, ubsan_handle_negate_overflow, ubsan_handle_divrem_overflow,
  ubsan_handle_shift_out_of_bounds, ubsan_handle_out_of_bounds, ubsan_handle_vla_bound_not_positive,
  ubsan_handle_invalid_value, ubsan_handle_invalid_builtin, ubsan_handle_nonnull_arg,
  ubsan_handle_implicit_conversion, ubsan_handle_pointer_overflow, ubsan_handle_builtin_unreachable,
}

module _ (fuel : ℕ) (machine : Machine) (locked : Bool) where
  unfoldable pub ubsan_handle_type_mismatch_abort : TypeMismatchData → ℕ → Exec (Unit {0})
  ubsan_handle_type_mismatch_abort d pointer =
      ubsan_handle_type_mismatch fuel machine locked d pointer

  unfoldable pub ubsan_handle_type_mismatch_v1_abort : TypeMismatchDataV1 → ℕ → Exec (Unit {0})
  ubsan_handle_type_mismatch_v1_abort d pointer =
      ubsan_handle_type_mismatch_v1 fuel machine locked d pointer

  unfoldable pub ubsan_handle_float_cast_overflow_abort : FloatCastOverflowData → Exec (Unit {0})
  ubsan_handle_float_cast_overflow_abort d =
      ubsan_handle_float_cast_overflow fuel machine locked d >> abort

  unfoldable pub ubsan_handle_function_type_mismatch_abort :
      FunctionTypeMismatchData → Exec (Unit {0})
  ubsan_handle_function_type_mismatch_abort d =
      ubsan_handle_function_type_mismatch fuel machine locked d

  unfoldable pub ubsan_handle_add_overflow_abort : OverflowData → Exec (Unit {0})
  ubsan_handle_add_overflow_abort d = ubsan_handle_add_overflow fuel machine locked d

  unfoldable pub ubsan_handle_sub_overflow_abort : OverflowData → Exec (Unit {0})
  ubsan_handle_sub_overflow_abort d = ubsan_handle_sub_overflow fuel machine locked d

  unfoldable pub ubsan_handle_mul_overflow_abort : OverflowData → Exec (Unit {0})
  ubsan_handle_mul_overflow_abort d = ubsan_handle_mul_overflow fuel machine locked d

  unfoldable pub ubsan_handle_negate_overflow_abort : OverflowData → Exec (Unit {0})
  ubsan_handle_negate_overflow_abort d = ubsan_handle_negate_overflow fuel machine locked d

  unfoldable pub ubsan_handle_divrem_overflow_abort : OverflowData → Exec (Unit {0})
  ubsan_handle_divrem_overflow_abort d = ubsan_handle_divrem_overflow fuel machine locked d

  unfoldable pub ubsan_handle_shift_out_of_bounds_abort : ShiftOutOfBoundsData → Exec (Unit {0})
  ubsan_handle_shift_out_of_bounds_abort d = ubsan_handle_shift_out_of_bounds fuel machine locked d

  unfoldable pub ubsan_handle_out_of_bounds_abort : OutOfBoundsData → Exec (Unit {0})
  ubsan_handle_out_of_bounds_abort d = ubsan_handle_out_of_bounds fuel machine locked d

  unfoldable pub ubsan_handle_vla_bound_not_positive_abort : VlaBoundData → Exec (Unit {0})
  ubsan_handle_vla_bound_not_positive_abort d =
      ubsan_handle_vla_bound_not_positive fuel machine locked d

  unfoldable pub ubsan_handle_invalid_value_abort : InvalidValueData → Exec (Unit {0})
  ubsan_handle_invalid_value_abort d = ubsan_handle_invalid_value fuel machine locked d

  unfoldable pub ubsan_handle_invalid_builtin_abort : InvalidValueData → Exec (Unit {0})
  ubsan_handle_invalid_builtin_abort d = ubsan_handle_invalid_builtin fuel machine locked d

  unfoldable pub ubsan_handle_nonnull_arg_abort : NonnullArgData → Exec (Unit {0})
  ubsan_handle_nonnull_arg_abort d = ubsan_handle_nonnull_arg fuel machine locked d

  unfoldable pub ubsan_handle_implicit_conversion_abort : ImplicitConversionData → Exec (Unit {0})
  ubsan_handle_implicit_conversion_abort d = ubsan_handle_implicit_conversion fuel machine locked d

  unfoldable pub ubsan_handle_pointer_overflow_abort : PointerOverflowData → ℕ → ℕ → Exec (Unit {0})
  ubsan_handle_pointer_overflow_abort d base result =
      ubsan_handle_pointer_overflow fuel machine locked d base result

  unfoldable pub ubsan_handle_builtin_unreachable_abort : Option SourceLocation → Exec (Unit {0})
  ubsan_handle_builtin_unreachable_abort loc =
      ubsan_handle_builtin_unreachable fuel machine locked loc
