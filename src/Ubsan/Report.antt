-- ===== src/Ubsan/Report.antt =====
-- The calls of the handlers as one type.
use misan.Prelude.{ℕ, Bool, Option, Exec}
use misan.Common.Platform.{Machine}
use misan.Ubsan.Data.{
  SourceLocation, TypeMismatchData, OverflowData, ShiftOutOfBoundsData, OutOfBoundsData,
  VlaBoundData, InvalidValueData, TypeMismatchDataV1, ImplicitConversionData, NonnullArgData,
  PointerOverflowData, FunctionTypeMismatchData, FloatCastOverflowData,
}
use misan.Ubsan.{
  ubsan_handle_type_mismatch, ubsan_handle_type_mismatch_v1, ubsan_handle_float_cast_overflow,
  ubsan_handle_function_type_mismatch, ubsan_handle_add_overflow, ubsan_handle_sub_overflow,
  ubsan_handle_mul_overflow, ubsan_handle_negate_overflow, ubsan_handle_divrem_overflow,
  ubsan_handle_shift_out_of_bounds, ubsan_handle_out_of_bounds, ubsan_handle_vla_bound_not_positive,
  ubsan_handle_invalid_value, ubsan_handle_invalid_builtin, ubsan_handle_nonnull_arg,
  ubsan_handle_implicit_conversion, ubsan_handle_pointer_overflow, ubsan_handle_builtin_unreachable,
}
use misan.Ubsan.Aborts.{
  ubsan_handle_type_mismatch_abort, ubsan_handle_type_mismatch_v1_abort,
  ubsan_handle_float_cast_overflow_abort, ubsan_handle_function_type_mismatch_abort,
  ubsan_handle_add_overflow_abort, ubsan_handle_sub_overflow_abort, ubsan_handle_mul_overflow_abort,
  ubsan_handle_negate_overflow_abort, ubsan_handle_divrem_overflow_abort,
  ubsan_handle_shift_out_of_bounds_abort, ubsan_handle_out_of_bounds_abort,
  ubsan_handle_vla_bound_not_positive_abort, ubsan_handle_invalid_value_abort,
  ubsan_handle_invalid_builtin_abort, ubsan_handle_nonnull_arg_abort,
  ubsan_handle_implicit_conversion_abort, ubsan_handle_pointer_overflow_abort,
  ubsan_handle_builtin_unreachable_abort,
}

-- A handler with its arguments; those that it ignores are left out.
pub data Report : Type 0 where
  type_mismatch : TypeMismatchData → ℕ → Report
  type_mismatch_v1 : TypeMismatchDataV1 → ℕ → Report
  float_cast_overflow : FloatCastOverflowData → Report
  function_type_mismatch : FunctionTypeMismatchData → Report
  add_overflow : OverflowData → Report
  sub_overflow : OverflowData → Report
  mul_overflow : OverflowData → Report
  negate_overflow : OverflowData → Report
  divrem_overflow : OverflowData → Report
  shift_out_of_bounds : ShiftOutOfBoundsData → Report
  out_of_bounds : OutOfBoundsData → Report
  vla_bound_not_positive : VlaBoundData → Report
  invalid_value : InvalidValueData → Report
  invalid_builtin : InvalidValueData → Report
  nonnull_arg : NonnullArgData → Report
  implicit_conversion : ImplicitConversionData → Report
  pointer_overflow : PointerOverflowData → ℕ → ℕ → Report
  builtin_unreachable : Option SourceLocation → Report

module _ (fuel : ℕ) (machine : Machine) (locked : Bool) where
  unfoldable pub handle : Report → Exec (Unit {0})
  handle (type_mismatch d pointer) = ubsan_handle_type_mismatch fuel machine locked d pointer
  handle (type_mismatch_v1 d pointer) = ubsan_handle_type_mismatch_v1 fuel machine locked d pointer
  handle (float_cast_overflow d) = ubsan_handle_float_cast_overflow fuel machine locked d
  handle (function_type_mismatch d) = ubsan_handle_function_type_mismatch fuel machine locked d
  handle (add_overflow d) = ubsan_handle_add_overflow fuel machine locked d
  handle (sub_overflow d) = ubsan_handle_sub_overflow fuel machine locked d
  handle (mul_overflow d) = ubsan_handle_mul_overflow fuel machine locked d
  handle (negate_overflow d) = ubsan_handle_negate_overflow fuel machine locked d
  handle (divrem_overflow d) = ubsan_handle_divrem_overflow fuel machine locked d
  handle (shift_out_of_bounds d) = ubsan_handle_shift_out_of_bounds fuel machine locked d
  handle (out_of_bounds d) = ubsan_handle_out_of_bounds fuel machine locked d
  handle (vla_bound_not_positive d) = ubsan_handle_vla_bound_not_positive fuel machine locked d
  handle (invalid_value d) = ubsan_handle_invalid_value fuel machine locked d
  handle (invalid_builtin d) = ubsan_handle_invalid_builtin fuel machine locked d
  handle (nonnull_arg d) = ubsan_handle_nonnull_arg fuel machine locked d
  handle (implicit_conversion d) = ubsan_handle_implicit_conversion fuel machine locked d
  handle (pointer_overflow d base result) =
      ubsan_handle_pointer_overflow fuel machine locked d base result
  handle (builtin_unreachable loc) = ubsan_handle_builtin_unreachable fuel machine locked loc

  unfoldable pub handle_abort : Report → Exec (Unit {0})
  handle_abort (type_mismatch d pointer) =
      ubsan_handle_type_mismatch_abort fuel machine locked d pointer
  handle_abort (type_mismatch_v1 d pointer) =
      ubsan_handle_type_mismatch_v1_abort fuel machine locked d pointer
  handle_abort (float_cast_overflow d) =
      ubsan_handle_float_cast_overflow_abort fuel machine locked d
  handle_abort (function_type_mismatch d) =
      ubsan_handle_function_type_mismatch_abort fuel machine locked d
  handle_abort (add_overflow d) = ubsan_handle_add_overflow_abort fuel machine locked d
  handle_abort (sub_overflow d) = ubsan_handle_sub_overflow_abort fuel machine locked d
  handle_abort (mul_overflow d) = ubsan_handle_mul_overflow_abort fuel machine locked d
  handle_abort (negate_overflow d) = ubsan_handle_negate_overflow_abort fuel machine locked d
  handle_abort (divrem_overflow d) = ubsan_handle_divrem_overflow_abort fuel machine locked d
  handle_abort (shift_out_of_bounds d) =
      ubsan_handle_shift_out_of_bounds_abort fuel machine locked d
  handle_abort (out_of_bounds d) = ubsan_handle_out_of_bounds_abort fuel machine locked d
  handle_abort (vla_bound_not_positive d) =
      ubsan_handle_vla_bound_not_positive_abort fuel machine locked d
  handle_abort (invalid_value d) = ubsan_handle_invalid_value_abort fuel machine locked d
  handle_abort (invalid_builtin d) = ubsan_handle_invalid_builtin_abort fuel machine locked d
  handle_abort (nonnull_arg d) = ubsan_handle_nonnull_arg_abort fuel machine locked d
  handle_abort (implicit_conversion d) =
      ubsan_handle_implicit_conversion_abort fuel machine locked d
  handle_abort (pointer_overflow d base result) =
      ubsan_handle_pointer_overflow_abort fuel machine locked d base result
  handle_abort (builtin_unreachable loc) =
      ubsan_handle_builtin_unreachable_abort fuel machine locked loc
