-- ===== src/Asan/Access.antt =====
-- src/asan/asan_rtl.c, the check of an access and its report, and the hooks of
-- src/asan/asan_hooks.c that instrumented code calls.
pub mod Checked
use misan.Prelude.{
  ℕ, zero, suc, ◌+◌, ◌-◌, ◌*◌, ◌/◌, ◌%◌, ◌^◌, Bool, true, false, ◌&&◌, ◌||◌, List, [], ◌∷◌, ltb,
  leb, ◌==◌, if◌then◌else◌, u8, u64, sub64, bit_and, bit_not, update, ◌>>>◌, not, Exec, done, ◌>>=◌,
  ◌>>◌, pure, abort, literal, String,
}
use misan.Common.Printf.{word, text, drt_printf}
use misan.Common.Platform.{
  Machine, drt_arch_capture_stack_trace, drt_print_stack_trace, drt_spin_lock, drt_spin_unlock,
}
use misan.Asan.Shadow.{Memory, asan_shadow_mask, asan_shadow_get, asan_mem_to_shadow}

-- The globals of the runtime that an access reads: `asan_initialized`, `asan_lock`, the shadow.
pub record Runtime : Type 0 where
  pub initialized : Bool
  pub locked : Bool
  pub memory : Memory

module _ (fuel : ℕ) (machine : Machine) where
  -- The body up to the abort: what is printed, and the lock given back.
  unfoldable pub asan_report_text : Runtime → String → ℕ → ℕ → ℕ → Exec Bool
  asan_report_text r kind addr size shadow_val = do
    held ← drt_spin_lock r.locked
    drt_printf fuel "\n==ASAN ERROR==\n" []
    drt_printf fuel "  %s of size %zu at %p\n" (text (literal kind) ∷ word size ∷ word addr ∷ [])
    drt_printf fuel "  Shadow byte value: 0x%02x\n" (word shadow_val ∷ [])
    drt_print_stack_trace fuel (drt_arch_capture_stack_trace machine 2)
    drt_spin_unlock held

  unfoldable pub asan_report_error {ℓ} : {A : Type ℓ} → Runtime → String → ℕ → ℕ → ℕ → Exec A
  asan_report_error r kind addr size shadow_val =
      asan_report_text r kind addr size shadow_val >>= λ _. abort

  unfoldable pub asan_check_access : Runtime → ℕ → ℕ → Bool → Exec (Unit {0})
  asan_check_access r addr size is_write =
      if not r.initialized
      then pure tt
      else (let grain = bit_and addr (bit_not asan_shadow_mask) in
          let shadow = asan_shadow_get r.memory grain in
          if shadow == 0
          then pure tt
          else if ltb 0 shadow && ltb shadow 8 && leb (u64 (sub64 addr grain + size)) shadow
          then pure tt
          else asan_report_error r (if is_write then "WRITE" else "READ") addr size shadow)

  -- `__asan_report_load1` to `16`, `__asan_report_load_n` and the same for stores.
  unfoldable pub asan_report_access : Runtime → ℕ → ℕ → Bool → Exec (Unit {0})
  asan_report_access r addr size is_write = asan_check_access r addr size is_write

  -- `__asan_load1` to `16` and `__asan_store1` to `16`.
  unfoldable pub asan_access : Runtime → ℕ → ℕ → Bool → Exec (Unit {0})
  asan_access r addr size is_write =
      if r.initialized then asan_check_access r addr size is_write else pure tt

  unfoldable pub asan_describe_address : Memory → ℕ → Exec (Unit {0})
  asan_describe_address m addr =
      drt_printf fuel "Address %p shadow: 0x%02x\n" (word addr ∷ word (asan_shadow_get m addr) ∷ [])
