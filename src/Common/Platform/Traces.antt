-- ===== src/Common/Platform/Traces.antt =====
-- The printing of a stack trace, `drt_print_stack_trace` of src/common/san_printf.c.
use misan.Prelude.{ℕ, ◌^◌, ◌<◌, false, [], ◌∷◌, codes, inl, inr, arith, refl, u64}
use misan.Common.Number.{drt_puts}
use misan.Common.Number.Padding.{Spins, drt_putn-AreDigits, drt_putn-Spins}
use misan.Common.Printf.{
  word, drt_printf, drt_vprintf, format_rounds, format_step, convert, unsigned_arg,
}
use misan.Common.Printf.Ends.{Spins->>=, Spins-after}
use misan.Common.Platform.{StackTrace, print_frames, drt_print_stack_trace}

module _ (fuel : ℕ) (pos : 0 < fuel) (pc : ℕ) (low : pc < 16 ^ 15) where
  frame-Spins : Spins (drt_printf fuel "  #%zu  0x%p\n" (word 0 ∷ word pc ∷ []))
  unfolding drt_printf drt_vprintf format_rounds format_step convert unsigned_arg
  frame-Spins =
      let (ds, run, value) =
        drt_putn-AreDigits fuel 10 (u64 0) 0 b' ' false (inl refl) (omega arith) pos
          (inl (omega arith)) in
      let (o, run') =
        drt_putn-Spins fuel 16 (u64 pc) 16 b'0' false (inr refl) (omega arith) (omega arith)
          (omega arith) in
      rw (run, run') (_, refl)

  -- Printing a stack trace whose first address has fewer than 16 hexadecimal digits never ends,
  -- whatever the other addresses are and whatever positive fuel is given.
  pub drt_print_stack_trace-Spins :
      (pcs : StackTrace) → Spins (drt_print_stack_trace fuel (pc ∷ pcs))
  unfolding drt_print_stack_trace print_frames drt_puts
  drt_print_stack_trace-Spins pcs =
      Spins-after (codes "Stack trace:\n") _ (Spins->>= _ _ frame-Spins)
