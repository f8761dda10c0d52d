-- ===== src/Ubsan/Endings.antt =====
-- How the handlers end, and what their reports leave out.
use misan.Prelude.{
  arith, Bool-cases, inl, inr, ◌&&◌, not, >>=-stopped, returns-stopped, ℕ, Bool, true, false, List,
  Option, none, String, ◌≡◌, refl, abort, returns, returns->>=,
}
use misan.Common.Printf.{Arg}
use misan.Common.Platform.{Machine}
use misan.Ubsan.Aborts.{
  ubsan_handle_type_mismatch_abort, ubsan_handle_type_mismatch_v1_abort,
  ubsan_handle_float_cast_overflow_abort, ubsan_handle_function_type_mismatch_abort,
  ubsan_handle_add_overflow_abort, ubsan_handle_sub_overflow_abort, ubsan_handle_mul_overflow_abort,
  ubsan_handle_negate_overflow_abort, ubsan_handle_divrem_overflow_abort,
  ubsan_handle_shift_out_of_bounds_abort, ubsan_handle_out_of_bounds_abort,
  ubsan_handle_vla_bound_not_positive_abort, ubsan_handle_invalid_value_abort,
  ubsan_handle_invalid_builtin_abort, ubsan_handle_nonnull_arg_abort,
  ubsan_handle_implicit_conversion_abort, ubsan_handle_pointer_overflow_abort,
  ubsan_handle_builtin_unreachable_abort,
}
use misan.Ubsan.Data.{SourceLocation}
use misan.Ubsan.{
  handle_text, ubsan_handle, function_type_mismatch_text, builtin_unreachable_text,
  ubsan_handle_type_mismatch, ubsan_handle_type_mismatch_v1, ubsan_handle_float_cast_overflow,
  ubsan_handle_function_type_mismatch, ubsan_handle_add_overflow, ubsan_handle_sub_overflow,
  ubsan_handle_mul_overflow, ubsan_handle_negate_overflow, ubsan_handle_divrem_overflow,
  ubsan_handle_shift_out_of_bounds, ubsan_handle_out_of_bounds, ubsan_handle_vla_bound_not_positive,
  ubsan_handle_invalid_value, ubsan_handle_invalid_builtin, ubsan_handle_nonnull_arg,
  ubsan_handle_implicit_conversion, ubsan_handle_pointer_overflow, ubsan_handle_builtin_unreachable,
}
use misan.Ubsan.Report.{
  Report, handle, handle_abort, type_mismatch, type_mismatch_v1, float_cast_overflow,
  function_type_mismatch, add_overflow, sub_overflow, mul_overflow, negate_overflow,
  divrem_overflow, shift_out_of_bounds, out_of_bounds, vla_bound_not_positive, invalid_value,
  invalid_builtin, nonnull_arg, implicit_conversion, pointer_overflow, builtin_unreachable,
}

abbrev pub recovers : Report → Bool
recovers (float_cast_overflow d) = true
recovers _ = false

-- The report with the types, or the location of the attribute, left out; the two handlers that
-- print a type keep it.
abbrev pub forget_types : Report → Report
forget_types (type_mismatch d pointer) = type_mismatch (record d { type = none }) pointer
forget_types (type_mismatch_v1 d pointer) = type_mismatch_v1 (record d { type = none }) pointer
forget_types (add_overflow d) = add_overflow (record d { type = none })
forget_types (sub_overflow d) = sub_overflow (record d { type = none })
forget_types (mul_overflow d) = mul_overflow (record d { type = none })
forget_types (negate_overflow d) = negate_overflow (record d { type = none })
forget_types (divrem_overflow d) = divrem_overflow (record d { type = none })
forget_types (shift_out_of_bounds d) =
    shift_out_of_bounds (record d { left_type = none; right_type = none })
forget_types (out_of_bounds d) = out_of_bounds (record d { array_type = none; index_type = none })
forget_types (vla_bound_not_positive d) = vla_bound_not_positive (record d { type = none })
forget_types (invalid_value d) = invalid_value (record d { type = none })
forget_types (invalid_builtin d) = invalid_builtin (record d { type = none })
forget_types (nonnull_arg d) = nonnull_arg (record d { attr_location = none })
forget_types (implicit_conversion d) =
    implicit_conversion (record d { from_type = none; to_type = none })
forget_types (float_cast_overflow d) = float_cast_overflow d
forget_types (function_type_mismatch d) = function_type_mismatch d
forget_types (pointer_overflow d base result) = pointer_overflow d base result
forget_types (builtin_unreachable loc) = builtin_unreachable loc

module _ (fuel : ℕ) (machine : Machine) (locked : Bool) where
  ubsan_handle-returns :
      (header : String) (location : Option SourceLocation) (fmt : String) (args : List Arg)
      → returns (ubsan_handle fuel machine locked header location fmt args) ≡ false
  unfolding ubsan_handle
  ubsan_handle-returns header location fmt args =
      returns->>= (handle_text fuel machine locked header location fmt args) (λ _. abort)
        (λ _. refl)

  -- No handler but the one of a float cast overflow returns: whatever its data is, it aborts,
  -- never ends, or does what C leaves undefined.
  handle-returns :
      (r : Report) → recovers r ≡ false → returns (handle fuel machine locked r) ≡ false
  unfolding handle ubsan_handle_type_mismatch ubsan_handle_type_mismatch_v1
      ubsan_handle_function_type_mismatch ubsan_handle_add_overflow ubsan_handle_sub_overflow
      ubsan_handle_mul_overflow ubsan_handle_negate_overflow ubsan_handle_divrem_overflow
      ubsan_handle_shift_out_of_bounds ubsan_handle_out_of_bounds
      ubsan_handle_vla_bound_not_positive ubsan_handle_invalid_value ubsan_handle_invalid_builtin
      ubsan_handle_nonnull_arg ubsan_handle_implicit_conversion ubsan_handle_pointer_overflow
      ubsan_handle_builtin_unreachable
  handle-returns (type_mismatch d pointer) h = returns-stopped _ _ (ubsan_handle-returns _ _ _ _)
  handle-returns (type_mismatch_v1 d pointer) h = returns-stopped _ _ (ubsan_handle-returns _ _ _ _)
  handle-returns (float_cast_overflow d) h = cc h
  handle-returns (function_type_mismatch d) h =
      returns->>= (function_type_mismatch_text fuel machine locked d) (λ _. abort) (λ _. refl)
  handle-returns (add_overflow d) h = returns-stopped _ _ (ubsan_handle-returns _ _ _ _)
  handle-returns (sub_overflow d) h = returns-stopped _ _ (ubsan_handle-returns _ _ _ _)
  handle-returns (mul_overflow d) h = returns-stopped _ _ (ubsan_handle-returns _ _ _ _)
  handle-returns (negate_overflow d) h = returns-stopped _ _ (ubsan_handle-returns _ _ _ _)
  handle-returns (divrem_overflow d) h = returns-stopped _ _ (ubsan_handle-returns _ _ _ _)
  handle-returns (shift_out_of_bounds d) h = returns-stopped _ _ (ubsan_handle-returns _ _ _ _)
  handle-returns (out_of_bounds d) h = returns-stopped _ _ (ubsan_handle-returns _ _ _ _)
  handle-returns (vla_bound_not_positive d) h = returns-stopped _ _ (ubsan_handle-returns _ _ _ _)
  handle-returns (invalid_value d) h = returns-stopped _ _ (ubsan_handle-returns _ _ _ _)
  handle-returns (invalid_builtin d) h = returns-stopped _ _ (ubsan_handle-returns _ _ _ _)
  handle-returns (nonnull_arg d) h = returns-stopped _ _ (ubsan_handle-returns _ _ _ _)
  handle-returns (implicit_conversion d) h = returns-stopped _ _ (ubsan_handle-returns _ _ _ _)
  handle-returns (pointer_overflow d base result) h = ubsan_handle-returns _ _ _ _
  handle-returns (builtin_unreachable loc) h =
      returns->>= (builtin_unreachable_text fuel machine locked loc) (λ _. abort) (λ _. refl)

  handle_abort-returns : (r : Report) → returns (handle_abort fuel machine locked r) ≡ false
  unfolding handle handle_abort ubsan_handle_type_mismatch_abort ubsan_handle_type_mismatch_v1_abort
      ubsan_handle_float_cast_overflow_abort ubsan_handle_function_type_mismatch_abort
      ubsan_handle_add_overflow_abort ubsan_handle_sub_overflow_abort
      ubsan_handle_mul_overflow_abort ubsan_handle_negate_overflow_abort
      ubsan_handle_divrem_overflow_abort ubsan_handle_shift_out_of_bounds_abort
      ubsan_handle_out_of_bounds_abort ubsan_handle_vla_bound_not_positive_abort
      ubsan_handle_invalid_value_abort ubsan_handle_invalid_builtin_abort
      ubsan_handle_nonnull_arg_abort ubsan_handle_implicit_conversion_abort
      ubsan_handle_pointer_overflow_abort ubsan_handle_builtin_unreachable_abort
  handle_abort-returns (float_cast_overflow d) =
      returns->>= (ubsan_handle_float_cast_overflow fuel machine locked d) (λ _. abort) (λ _. refl)
  handle_abort-returns (type_mismatch d pointer) = handle-returns (type_mismatch d pointer) refl
  handle_abort-returns (type_mismatch_v1 d pointer) =
      handle-returns (type_mismatch_v1 d pointer) refl
  handle_abort-returns (function_type_mismatch d) = handle-returns (function_type_mismatch d) refl
  handle_abort-returns (add_overflow d) = handle-returns (add_overflow d) refl
  handle_abort-returns (sub_overflow d) = handle-returns (sub_overflow d) refl
  handle_abort-returns (mul_overflow d) = handle-returns (mul_overflow d) refl
  handle_abort-returns (negate_overflow d) = handle-returns (negate_overflow d) refl
  handle_abort-returns (divrem_overflow d) = handle-returns (divrem_overflow d) refl
  handle_abort-returns (shift_out_of_bounds d) = handle-returns (shift_out_of_bounds d) refl
  handle_abort-returns (out_of_bounds d) = handle-returns (out_of_bounds d) refl
  handle_abort-returns (vla_bound_not_positive d) = handle-returns (vla_bound_not_positive d) refl
  handle_abort-returns (invalid_value d) = handle-returns (invalid_value d) refl
  handle_abort-returns (invalid_builtin d) = handle-returns (invalid_builtin d) refl
  handle_abort-returns (nonnull_arg d) = handle-returns (nonnull_arg d) refl
  handle_abort-returns (implicit_conversion d) = handle-returns (implicit_conversion d) refl
  handle_abort-returns (pointer_overflow d base result) =
      handle-returns (pointer_overflow d base result) refl
  handle_abort-returns (builtin_unreachable loc) = handle-returns (builtin_unreachable loc) refl

  -- Whatever its data is, no handler but the one of a float cast overflow returns, and no
  -- `_abort` variant does: each aborts, never ends, or does what C leaves undefined.
  pub handlers_stop :
      (r : Report)
      → ((returns (handle fuel machine locked r) && not (recovers r)) ≡ false)
        × (returns (handle_abort fuel machine locked r) ≡ false)
  handlers_stop r = (
    elim (Bool-cases (recovers r)) [
      | inl float ↦ ground (arith, float)
      | inr other ↦ ground (arith, handle-returns r other)
    ],
    handle_abort-returns r,
  )

  -- But for the two handlers of a float cast and of a function type, the types that the compiler
  -- passes to a handler make no difference, nor does the place of a nonnull attribute: what it
  -- prints and how it ends is the same without them.
  pub handle-forget_types :
      (r : Report) → handle fuel machine locked r ≡ handle fuel machine locked (forget_types r)
  unfolding handle ubsan_handle_type_mismatch ubsan_handle_type_mismatch_v1
      ubsan_handle_function_type_mismatch ubsan_handle_add_overflow ubsan_handle_sub_overflow
      ubsan_handle_mul_overflow ubsan_handle_negate_overflow ubsan_handle_divrem_overflow
      ubsan_handle_shift_out_of_bounds ubsan_handle_out_of_bounds
      ubsan_handle_vla_bound_not_positive ubsan_handle_invalid_value ubsan_handle_invalid_builtin
      ubsan_handle_nonnull_arg ubsan_handle_implicit_conversion ubsan_handle_pointer_overflow
      ubsan_handle_builtin_unreachable
  handle-forget_types (type_mismatch d pointer) = >>=-stopped _ _ _ (ubsan_handle-returns _ _ _ _)
  handle-forget_types (type_mismatch_v1 d pointer) =
      >>=-stopped _ _ _ (ubsan_handle-returns _ _ _ _)
  handle-forget_types (float_cast_overflow d) = refl
  handle-forget_types (function_type_mismatch d) = refl
  handle-forget_types (add_overflow d) = >>=-stopped _ _ _ (ubsan_handle-returns _ _ _ _)
  handle-forget_types (sub_overflow d) = >>=-stopped _ _ _ (ubsan_handle-returns _ _ _ _)
  handle-forget_types (mul_overflow d) = >>=-stopped _ _ _ (ubsan_handle-returns _ _ _ _)
  handle-forget_types (negate_overflow d) = >>=-stopped _ _ _ (ubsan_handle-returns _ _ _ _)
  handle-forget_types (divrem_overflow d) = >>=-stopped _ _ _ (ubsan_handle-returns _ _ _ _)
  handle-forget_types (shift_out_of_bounds d) = >>=-stopped _ _ _ (ubsan_handle-returns _ _ _ _)
  handle-forget_types (out_of_bounds d) = >>=-stopped _ _ _ (ubsan_handle-returns _ _ _ _)
  handle-forget_types (vla_bound_not_positive d) = >>=-stopped _ _ _ (ubsan_handle-returns _ _ _ _)
  handle-forget_types (invalid_value d) = >>=-stopped _ _ _ (ubsan_handle-returns _ _ _ _)
  handle-forget_types (invalid_builtin d) = >>=-stopped _ _ _ (ubsan_handle-returns _ _ _ _)
  handle-forget_types (nonnull_arg d) = >>=-stopped _ _ _ (ubsan_handle-returns _ _ _ _)
  handle-forget_types (implicit_conversion d) = >>=-stopped _ _ _ (ubsan_handle-returns _ _ _ _)
  handle-forget_types (pointer_overflow d base result) = refl
  handle-forget_types (builtin_unreachable loc) = refl
