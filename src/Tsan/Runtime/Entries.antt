-- ===== src/Tsan/Runtime/Entries.antt =====
-- The entry of the shadow table that an access works on.
use misan.Prelude.{
  ℕ, true, none, some, ◌≡◌, ◌≢◌, ◌<◌, ◌⊎◌, inl, inr, arith, refl, update, update_ne, fun_ext, ap,
  sym, ◌∙◌, Option,
}
use misan.Tsan.Table.{Slot, found, claimed, nowhere, probe, tsan_shadow_entries, tsan_shadow_hash}
use misan.Tsan.Table.Probing.{IsAnswer, probe-IsAnswer}
use misan.Tsan.Table.Room.{taken, taken-full}
use misan.Tsan.Table.Stable.{probe-claimed-found}
use misan.Tsan.Runtime.{Shadow, shadow_holds, tsan_shadow_get}

hash-lt : (addr : ℕ) → tsan_shadow_hash addr < tsan_shadow_entries
unfolding tsan_shadow_hash
hash-lt addr = omega arith

-- Where the walk over the table ends.
unfoldable pub walk : (ℕ → Shadow) → ℕ → Slot
walk table addr =
    probe (shadow_holds table) tsan_shadow_entries addr true tsan_shadow_entries
      (tsan_shadow_hash addr) (tsan_shadow_hash addr)

-- The entry that `tsan_shadow_get` gives, with the table after it.
pub record IsEntry (table : ℕ → Shadow) (addr : ℕ) (i : ℕ) (table' : ℕ → Shadow) : Type 0 where
  pub inside : i < tsan_shadow_entries
  pub active : (table' i).active ≡ true
  pub addressed : (table' i).addr ≡ addr
  pub same_tid : (table' i).tid ≡ (table i).tid
  pub same_kind : (table' i).is_write ≡ (table i).is_write
  pub others : (j : ℕ) → j ≢ i → table' j ≡ table j
  pub before :
      (shadow_holds table i ≡ some addr)
      ⊎ ((shadow_holds table i ≡ none) × (walk table addr ≡ claimed i))
  pub again :
      (table'' : ℕ → Shadow)
      → ((j : ℕ) → shadow_holds table'' j ≡ shadow_holds table' j)
      → tsan_shadow_get table'' addr true ≡ (some i, table'')

claim : (ℕ → Shadow) → ℕ → ℕ → ℕ → Shadow
claim table addr i = update table i (record (table i) { addr = addr; active = true })

module _ (table : ℕ → Shadow) (addr : ℕ) where
  walk-IsAnswer : IsAnswer (shadow_holds table) tsan_shadow_entries addr true (walk table addr)
  unfolding walk
  walk-IsAnswer =
      probe-IsAnswer (shadow_holds table) tsan_shadow_entries addr true (tsan_shadow_hash addr)
        (hash-lt addr)

  get-found :
      (i : ℕ) → walk table addr ≡ found i → tsan_shadow_get table addr true ≡ (some i, table)
  unfolding tsan_shadow_get walk
  get-found i e = rw (e, tsan_shadow_get)

  get-claimed :
      (i : ℕ)
      → walk table addr ≡ claimed i
      → tsan_shadow_get table addr true ≡ (some i, claim table addr i)
  unfolding tsan_shadow_get walk claim
  get-claimed i e = rw (e, tsan_shadow_get)

  get-nowhere : walk table addr ≡ nowhere → tsan_shadow_get table addr true ≡ (none, table)
  unfolding tsan_shadow_get walk
  get-nowhere e = rw (e, tsan_shadow_get)

  holds-claim : (i j : ℕ) → j ≢ i → shadow_holds (claim table addr i) j ≡ shadow_holds table j
  unfolding claim update
  holds-claim i j ne = ground arith

  walk-claim :
      (i : ℕ)
      → walk table addr ≡ claimed i
      → shadow_holds table i ≡ none
      → walk (claim table addr i) addr ≡ found i
  unfolding walk
  walk-claim i e free =
      probe-claimed-found (shadow_holds table) (shadow_holds (claim table addr i))
        tsan_shadow_entries addr i free (unfold claim update in ground arith) (holds-claim i) true
        tsan_shadow_entries (tsan_shadow_hash addr) (tsan_shadow_hash addr) e

-- A table whose slots hold the same addresses is walked in the same way.
get-again :
    (table table' : ℕ → Shadow) (addr i : ℕ)
    → walk table addr ≡ found i
    → ((j : ℕ) → shadow_holds table' j ≡ shadow_holds table j)
    → tsan_shadow_get table' addr true ≡ (some i, table')
get-again table table' addr i e same =
    get-found table' addr i (unfold walk in rw (fun_ext same) (unfold walk in e))

pub shadow_get-IsEntry :
    (table : ℕ → Shadow) (addr : ℕ)
    → (tsan_shadow_get table addr true ≡ (none, table))
      ⊎ ((i : ℕ) × (table' : ℕ → Shadow) × (tsan_shadow_get table addr true ≡ (some i, table'))
          × IsEntry table addr i table')
shadow_get-IsEntry table addr = go (walk table addr) refl (walk-IsAnswer table addr)
  where
    go :
        (slot : Slot)
        → walk table addr ≡ slot
        → IsAnswer (shadow_holds table) tsan_shadow_entries addr true slot
        → (tsan_shadow_get table addr true ≡ (none, table))
          ⊎ ((i : ℕ) × (table' : ℕ → Shadow) × (tsan_shadow_get table addr true ≡ (some i, table'))
              × IsEntry table addr i table')
    go nowhere e a = inl (get-nowhere table addr e)
    go (found i) e a = inr (
      i,
      table,
      get-found table addr i e,
      record {
        inside = a.0;
        active = ground (arith, a.1);
        addressed = ground (arith, a.1);
        same_tid = refl;
        same_kind = refl;
        others = λ j ne. refl;
        before = inl a.1;
        again = λ table'' same. get-again table table'' addr i e same;
      },
    )
    go (claimed i) e a = inr (
      i,
      claim table addr i,
      get-claimed table addr i e,
      record {
        inside = a.0;
        active = unfold claim update in ground arith;
        addressed = unfold claim update in ground arith;
        same_tid = unfold claim update in ground arith;
        same_kind = unfold claim update in ground arith;
        others = λ j ne. unfold claim in update_ne table i j _ ne;
        before = inr (a.1, e);
        again = λ table'' same.
            get-again (claim table addr i) table'' addr i (walk-claim table addr i e a.1) same;
      },
    )

-- While a slot is free there is an entry for every address.
pub shadow_get-room :
    (table : ℕ → Shadow) (addr : ℕ)
    → taken tsan_shadow_entries (shadow_holds table) < tsan_shadow_entries
    → (i : ℕ) × (table' : ℕ → Shadow) × (tsan_shadow_get table addr true ≡ (some i, table'))
      × IsEntry table addr i table'
shadow_get-room table addr room = elim (shadow_get-IsEntry table addr) [
  | inr entry ↦ entry
  | inl e ↦ absurd (full (walk table addr) refl (walk-IsAnswer table addr) e)
]
  where
    differ :
        (i : ℕ) (table' : ℕ → Shadow)
        → tsan_shadow_get table addr true ≡ (some i, table')
        → tsan_shadow_get table addr true ≡ (none, table)
        → ⊥
    differ i table' run e = cc (ap (λ (r : Option ℕ × (ℕ → Shadow)). r.0) (sym run ∙ e))

    full :
        (slot : Slot)
        → walk table addr ≡ slot
        → IsAnswer (shadow_holds table) tsan_shadow_entries addr true slot
        → tsan_shadow_get table addr true ≡ (none, table)
        → ⊥
    full nowhere at a e =
        omega (arith, taken-full tsan_shadow_entries (shadow_holds table) (λ j lt. a.1 j lt refl))
    full (found i) at a e = differ i table (get-found table addr i at) e
    full (claimed i) at a e = differ i (claim table addr i) (get-claimed table addr i at) e
