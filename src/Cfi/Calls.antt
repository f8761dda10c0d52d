-- ===== src/Cfi/Calls.antt =====
-- Which indirect calls the check lets through.
use misan.Prelude.{
  ℕ, ◌+◌, ◌*◌, ◌/◌, ◌≤◌, Bool, true, false, none, some, List, [], ◌==◌, ◌&&◌, ◌||◌, ◌≡◌, update,
  done, returns, returns->>=, arith, Option-cases, inl, inr,
}
use misan.Common.Platform.{Machine}
use misan.Common.Alloc.{pool_size}
use misan.Common.Alloc.Blocks.{drt_internal_alloc_lem}
use misan.Common.Printf.Ends.{drt_die-returns}
use misan.Cfi.{
  Entry, Cfi, find_entry, cfi_lookup, entry_size, add_entry, cfi_insert, cfi_fail, mismatch_text,
  cfi_slowpath,
}

-- The pair is in the table.
abbrev pub is_known : (ℕ → List Entry) → ℕ → ℕ → Bool
is_known table type_hash vtable = elim (cfi_lookup table type_hash vtable) [
  | none ↦ false
  | some e ↦ true
]

pub is_known-add_entry :
    (table : ℕ → List Entry) (t v t' v' : ℕ)
    → is_known (add_entry table t v) t' v' ≡ (is_known table t' v' || (t == t' && v == v'))
unfolding cfi_lookup add_entry find_entry update
is_known-add_entry table t v t' v' = ground arith

module _ (fuel : ℕ) where
  -- While the pool has room for an entry, an insertion returns, and a pair is in the table after
  -- it exactly when it was there before or is the pair inserted.
  pub cfi_insert-is_known :
      (s : Cfi) (t v t' v' : ℕ)
      → (s.used + 7) / 8 * 8 + entry_size ≤ pool_size
      → (s' : Cfi) × (cfi_insert fuel s t v ≡ done [] s')
        × (is_known s'.table t' v' ≡ (is_known s.table t' v' || (t == t' && v == v')))
  unfolding cfi_insert
  cfi_insert-is_known s t v t' v' room = elim (Option-cases (cfi_lookup s.table t v)) [
    | inl e ↦
        let (block, used', run, aligned, after_used, end, within) =
          drt_internal_alloc_lem fuel s.used entry_size (omega arith) room in
        (
          record { table = add_entry s.table t v; used = used' },
          ground (arith, e, run),
          is_known-add_entry s.table t v t' v',
        )
    | inr (entry, e) ↦ (s, ground (arith, e), ground (arith, e))
  ]

  -- The check of an indirect call returns exactly when the pair of the call site's type and the
  -- vtable of the object is in the table.
  pub cfi_slowpath_iff :
      (machine : Machine) (table : ℕ → List Entry) (call_site_type addr : ℕ)
      → returns (cfi_slowpath fuel machine table call_site_type addr)
        ≡ is_known table call_site_type (machine.word_at addr)
  unfolding cfi_slowpath cfi_fail
  cfi_slowpath_iff machine table call_site_type addr = ground (
    arith,
    returns->>= (mismatch_text fuel machine call_site_type addr (machine.word_at addr))
        (λ _. cfi_fail fuel) (λ _. drt_die-returns (Unit {0}) fuel "CFI check failed" []),
  )
