-- ===== src/Cfi.antt =====
-- src/cfi/cfi_rtl.c: the table of the vtables that a call site's type admits, and the check of an
-- indirect call. A chain is the list of its entries; the blocks that hold them are taken from the
-- internal allocator.
pub mod Calls
pub mod Table
use misan.Prelude.{
  ℕ, zero, suc, ◌+◌, ◌*◌, Bool, true, false, Option, none, some, List, [], ◌∷◌, ◌==◌, ◌&&◌,
  if◌then◌else◌, u32, bit_and, bit_xor, ◌>>>◌, update, Exec, ◌>>=◌, ◌>>◌, pure, abort,
}
use misan.Common.Printf.{word, drt_printf, drt_die}
use misan.Common.Platform.{Machine, drt_arch_capture_stack_trace, drt_print_stack_trace}
use misan.Common.Alloc.{drt_internal_alloc}

pub record Entry : Type 0 where
  pub type_hash : ℕ
  pub vtable : ℕ

-- `cfi_hash_table`, and `drt_bump_used` of the allocator.
pub record Cfi : Type 0 where
  pub table : ℕ → List Entry
  pub used : ℕ

abbrev pub cfi_hash_mask : ℕ
cfi_hash_mask = 4095

-- The loop of `cfi_hash_uint64` from the byte `i` on.
unfoldable pub hash_bytes : ℕ → ℕ → ℕ → ℕ → ℕ
hash_bytes zero i h val = h
hash_bytes (suc rounds) i h val =
    hash_bytes rounds (i + 1) (u32 (bit_xor h (bit_and (val >>> (i * 8)) 0xFF) * 16777619)) val

unfoldable pub cfi_hash_uint64 : ℕ → ℕ
cfi_hash_uint64 val = bit_and (hash_bytes 8 0 2166136261 val) cfi_hash_mask

-- The loop of `cfi_lookup` along a chain.
unfoldable pub find_entry : ℕ → ℕ → List Entry → Option Entry
find_entry type_hash vtable [] = none
find_entry type_hash vtable (e ∷ next) =
    if e.type_hash == type_hash && e.vtable == vtable
    then some e
    else find_entry type_hash vtable next

unfoldable pub cfi_lookup : (ℕ → List Entry) → ℕ → ℕ → Option Entry
cfi_lookup table type_hash vtable =
    find_entry type_hash vtable (table (cfi_hash_uint64 (bit_xor type_hash vtable)))

-- `sizeof(cfi_entry_t)`.
abbrev pub entry_size : ℕ
entry_size = 24

-- The entry put in front of its chain.
unfoldable pub add_entry : (ℕ → List Entry) → ℕ → ℕ → ℕ → List Entry
add_entry table type_hash vtable =
    let idx = cfi_hash_uint64 (bit_xor type_hash vtable) in
    update table idx (record { type_hash = type_hash; vtable = vtable } ∷ table idx)

module _ (fuel : ℕ) where
  unfoldable pub cfi_insert : Cfi → ℕ → ℕ → Exec Cfi
  cfi_insert s type_hash vtable = elim (cfi_lookup s.table type_hash vtable) [
    | some e ↦ pure s
    | none ↦ drt_internal_alloc fuel s.used entry_size >>= λ r.
        pure (record { table = add_entry s.table type_hash vtable; used = r.1 })
  ]

  unfoldable pub cfi_fail {ℓ} : {A : Type ℓ} → Exec A
  cfi_fail = drt_die fuel "CFI check failed" []

  module _ (machine : Machine) where
    unfoldable pub mismatch_text : ℕ → ℕ → ℕ → Exec (Unit {0})
    mismatch_text call_site_type addr vtable = do
      drt_printf fuel "\n==CFI ERROR: type mismatch==\n" []
      drt_printf fuel "  Call site type hash: 0x%016llx\n" (word call_site_type ∷ [])
      drt_printf fuel "  Target address:      %p\n" (word addr ∷ [])
      drt_printf fuel "  Vtable:              %p\n" (word vtable ∷ [])
      drt_print_stack_trace fuel (drt_arch_capture_stack_trace machine 2)

    unfoldable pub cfi_slowpath : (ℕ → List Entry) → ℕ → ℕ → Exec (Unit {0})
    cfi_slowpath table call_site_type addr =
        elim (cfi_lookup table call_site_type (machine.word_at addr)) [
          | some e ↦ pure tt
          | none ↦ mismatch_text call_site_type addr (machine.word_at addr) >>= λ _. cfi_fail
        ]

    unfoldable cfi_slowpath_diag : (ℕ → List Entry) → ℕ → ℕ → ℕ → Exec (Unit {0})
    cfi_slowpath_diag table call_site_type addr diag_data = cfi_slowpath table call_site_type addr

    unfoldable pub bad_type_text : ℕ → ℕ → Exec (Unit {0})
    bad_type_text vtable caller_pc = do
      drt_printf fuel "\n==CFI BAD TYPE==\n" []
      drt_printf fuel "  Vtable:    %p\n" (word vtable ∷ [])
      drt_printf fuel "  Caller:    %p\n" (word caller_pc ∷ [])
      drt_print_stack_trace fuel (drt_arch_capture_stack_trace machine 2)

    unfoldable pub sanitizer_cfi_bad_type : ℕ → ℕ → Exec (Unit {0})
    sanitizer_cfi_bad_type vtable caller_pc = bad_type_text vtable caller_pc >>= λ _. abort

unfoldable sanitizer_cfi_init : Cfi → Cfi
sanitizer_cfi_init s = s
