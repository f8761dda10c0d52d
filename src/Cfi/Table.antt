-- ===== src/Cfi/Table.antt =====
-- The table of src/cfi/cfi_rtl.c as the set of the pairs that were inserted.
use misan.Prelude.{
  ℕ, ◌+◌, ◌*◌, ◌/◌, ◌%◌, ◌≤◌, ◌≡◌, Bool, false, List, [], ◌∷◌, ◌==◌, ◌&&◌, ◌||◌, length, Exec, done,
  ◌>>=◌, returns, arith, refl, ◌∙◌, Option-cases, inl, inr,
}
use misan.Common.Platform.{Machine}
use misan.Common.Alloc.{pool_size}
use misan.Common.Alloc.Blocks.{drt_internal_alloc-runs}
use misan.Cfi.{Cfi, find_entry, cfi_lookup, entry_size, add_entry, cfi_insert, cfi_slowpath}
use misan.Cfi.Calls.{is_known, is_known-add_entry, cfi_slowpath_iff}

-- Insertions, one after the other.
unfoldable pub insert_all : ℕ → List (ℕ × ℕ) → Cfi → Exec Cfi
insert_all fuel [] s = done [] s
insert_all fuel ((t, v) ∷ pairs) s = cfi_insert fuel s t v >>= λ s'. insert_all fuel pairs s'

-- The specification: the pair is one of the list.
abbrev pub is_listed : List (ℕ × ℕ) → ℕ → ℕ → Bool
is_listed [] t v = false
is_listed ((t', v') ∷ pairs) t v = (t' == t && v' == v) || is_listed pairs t v

-- The state as the program starts.
abbrev pub empty_table : Cfi
empty_table = record { table = λ idx. []; used = 0 }

-- Whole blocks are in use, and as many entries as are still to come fit behind them.
abbrev HasRoom : Cfi → ℕ → Type 0
HasRoom s n = (s.used % 8 ≡ 0) × (s.used + n * entry_size ≤ pool_size)

insert_one :
    (fuel : ℕ) (s : Cfi) (t v n : ℕ)
    → HasRoom s (n + 1)
    → (s' : Cfi) × (cfi_insert fuel s t v ≡ done [] s')
      × HasRoom s' n
      × ((t' v' : ℕ) → is_known s'.table t' v' ≡ (is_known s.table t' v' || (t == t' && v == v')))
unfolding cfi_insert
insert_one fuel s t v n (whole, room) = elim (Option-cases (cfi_lookup s.table t v)) [
  | inl e ↦
      let run = drt_internal_alloc-runs fuel s.used entry_size (omega arith) (omega arith) in
      (
        record { table = add_entry s.table t v; used = (s.used + 7) / 8 * 8 + entry_size },
        ground (arith, e, run),
        (omega arith, omega arith),
        λ t' v'. is_known-add_entry s.table t v t' v',
      )
  | inr (entry, e) ↦ (s, ground (arith, e), (whole, omega arith), λ t' v'. ground (arith, e))
]

insert_all-is_listed :
    (fuel : ℕ) (pairs : List (ℕ × ℕ)) (s : Cfi)
    → HasRoom s (length pairs)
    → (s' : Cfi) × (insert_all fuel pairs s ≡ done [] s')
      × ((t v : ℕ) → is_known s'.table t v ≡ (is_known s.table t v || is_listed pairs t v))
unfolding insert_all
insert_all-is_listed fuel [] s room = (s, refl, λ t v. ground arith)
insert_all-is_listed fuel ((t, v) ∷ pairs) s room =
    let (s₁, run, room₁, known₁) =
      insert_one fuel s t v (length pairs) (room.0, omega (arith, room)) in
    let (s₂, run₂, known₂) = insert_all-is_listed fuel pairs s₁ room₁ in
    (s₂, rw (run, run₂) refl, λ t' v'. ground (arith, known₁ t' v', known₂ t' v'))

-- From the empty table, inserting pairs one after the other returns, if the pool has room for an
-- entry each, and afterwards the check of an indirect call returns exactly when the pair of the
-- call site's type and the vtable of the object is one of them.
pub cfi_slowpath-insert_all :
    (fuel : ℕ) (machine : Machine) (pairs : List (ℕ × ℕ))
    → length pairs * entry_size ≤ pool_size
    → (s : Cfi) × (insert_all fuel pairs empty_table ≡ done [] s)
      × ((call_site_type addr : ℕ)
          → returns (cfi_slowpath fuel machine s.table call_site_type addr)
            ≡ is_listed pairs call_site_type (machine.word_at addr))
unfolding cfi_lookup find_entry
cfi_slowpath-insert_all fuel machine pairs room =
    let (s, run, known) = insert_all-is_listed fuel pairs empty_table (refl, omega arith) in
    (
      s,
      run,
      λ t addr. cfi_slowpath_iff fuel machine s.table t addr ∙ known t (machine.word_at addr),
    )
