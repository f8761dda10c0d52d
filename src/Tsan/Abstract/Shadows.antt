-- ===== src/Tsan/Abstract/Shadows.antt =====
-- The shadow table as a map from addresses to their last accesses.
use misan.Prelude.{
  ℕ, suc, ◌+◌, Bool, true, false, Option, none, some, ◌≡◌, ◌≢◌, ◌≤◌, ◌<◌, ◌⊎◌, inl, inr, update,
  arith, ap, sym, ◌∙◌, Option-cases, fun_ext,
}
use mathlib.Core.Option.{some-injective}
use native.Mathlib.Decide.{ℕ_discrete}
use misan.Tsan.Clock.{Clock}
use misan.Tsan.Table.{found, claimed, tsan_shadow_entries, tsan_shadow_hash}
use misan.Tsan.Table.Findable.{found-inj, probe-found-keeps}
use misan.Tsan.Table.Stable.{probe-claimed-found}
use misan.Tsan.Table.Room.{taken, taken-le}
use misan.Tsan.Runtime.{Shadow, shadow_holds}
use misan.Tsan.Runtime.Entries.{walk, IsEntry}

-- The table has the map's entries, each where the search finds it, and room for `n` more.
pub record Shadows (table : ℕ → Shadow) (last : ℕ → Option (ℕ × Bool)) (n : ℕ) : Type 0 where
  pub idle : (i : ℕ) → (table i).active ≡ false → (table i).tid ≡ 0
  pub known :
      (i a : ℕ)
      → i < tsan_shadow_entries
      → shadow_holds table i ≡ some a
      → last a ≡ some ((table i).tid, (table i).is_write)
  pub recorded :
      (a : ℕ)
      → last a ≢ none
      → (i : ℕ) × (i < tsan_shadow_entries) × (shadow_holds table i ≡ some a)
  pub findable :
      (i a : ℕ) → i < tsan_shadow_entries → shadow_holds table i ≡ some a → walk table a ≡ found i
  pub room : taken tsan_shadow_entries (shadow_holds table) + n ≤ tsan_shadow_entries

-- The entry `i` after an access.
abbrev pub noted : (ℕ → Shadow) → ℕ → Clock → ℕ → Bool → ℕ → Shadow
noted table i vc tid is_write =
    update table i (record (table i) { vc = vc; tid = tid; is_write = is_write })

-- A table that holds the same addresses is walked in the same way; so is one where the walk has just
-- taken a slot, and one where a slot behind it was taken.
module _ (table after : ℕ → Shadow) where
  walk-same :
      ((k : ℕ) → shadow_holds after k ≡ shadow_holds table k)
      → (j a : ℕ) → walk table a ≡ found j
      → walk after a ≡ found j
  unfolding walk
  walk-same same j a e = rw (fun_ext same) e

  module _ (i : ℕ) (free : shadow_holds table i ≡ none)
      (others : (k : ℕ) → k ≢ i → shadow_holds after k ≡ shadow_holds table k) where
    claimed-walk :
        (addr : ℕ)
        → shadow_holds after i ≡ some addr
        → walk table addr ≡ claimed i
        → walk after addr ≡ found i
    unfolding walk
    claimed-walk addr here e =
        probe-claimed-found (shadow_holds table) (shadow_holds after) tsan_shadow_entries addr i
          free here others true tsan_shadow_entries (tsan_shadow_hash addr) (tsan_shadow_hash addr)
          e

    kept-walk : (j a : ℕ) → walk table a ≡ found j → walk after a ≡ found j
    unfolding walk
    kept-walk j a e =
        probe-found-keeps (shadow_holds table) (shadow_holds after) tsan_shadow_entries a i others j
          tsan_shadow_entries (tsan_shadow_hash a) (tsan_shadow_hash a) free e

module _ (table : ℕ → Shadow) (last : ℕ → Option (ℕ × Bool)) (n : ℕ)
    (v : Shadows table last (suc n)) (addr i : ℕ) (table' : ℕ → Shadow)
    (entry : IsEntry table addr i table') where
  -- The entry is as the map says; one that was free has the id 0.
  pub entry-last :
      (last addr ≡ some ((table' i).tid, (table' i).is_write))
      ⊎ ((last addr ≡ none) × ((table' i).tid ≡ 0))
  entry-last = elim entry.before [
    | inl held ↦ inl (rw (entry.same_tid, entry.same_kind) (v.known i addr entry.inside held))
    | inr (free, e) ↦ inr (
      elim (Option-cases (last addr)) [
        | inl absent ↦ absent
        | inr (r, here) ↦
            let (j, lt, held) = v.recorded addr (λ h. cc (h, here)) in
            cc (sym (v.findable j addr lt held) ∙ e)
      ],
      entry.same_tid ∙ v.idle i (ground (arith, free)),
    )
  ]

  -- No other entry has the address.
  alone : (j : ℕ) → j < tsan_shadow_entries → j ≢ i → shadow_holds table j ≢ some addr
  alone j lt ne e = elim entry.before [
    | inl held ↦ ne (found-inj (sym (v.findable j addr lt e) ∙ v.findable i addr entry.inside held))
    | inr (free, at) ↦ cc (sym (v.findable j addr lt e) ∙ at)
  ]

  -- The entry has no other address.
  another : (j a : ℕ) → j ≡ i → shadow_holds table j ≡ some a → a ≡ addr
  another j a q held = elim entry.before [
    | inl here ↦ some-injective a addr (sym held ∙ ap (shadow_holds table) q ∙ here)
    | inr (free, at) ↦ cc (sym held ∙ ap (shadow_holds table) q ∙ free)
  ]

  module _ (vc : Clock) (tid : ℕ) (w : Bool) where
    after : ℕ → Shadow
    after = noted table' i vc tid w

    holds-noted : (j : ℕ) → j ≢ i → shadow_holds after j ≡ shadow_holds table j
    unfolding update after
    holds-noted j ne = ground (arith, entry.others j)

    holds-here : shadow_holds after i ≡ some addr
    unfolding update after
    holds-here = ground (arith, entry.active, entry.addressed)

    noted-findable :
        (j a : ℕ) → j < tsan_shadow_entries → shadow_holds after j ≡ some a → walk after a ≡ found j
    noted-findable j a lt e = elim entry.before [
      | inl held ↦
          let same_at : (k : ℕ) → shadow_holds after k ≡ shadow_holds table k = λ k.
            elim (ℕ_discrete k i) [
              | yes p ↦ rw p (holds-here ∙ sym held)
              | no p ↦ holds-noted k p
            ] in
          walk-same table after same_at j a (v.findable j a lt (sym (same_at j) ∙ e))
      | inr (free, at) ↦ elim (ℕ_discrete j i) [
        | yes p ↦
            let same : a ≡ addr =
              some-injective a addr (sym e ∙ ap (shadow_holds after) p ∙ holds-here) in
            rw (p, same) (claimed-walk table after i free holds-noted addr holds-here at)
        | no p ↦
            kept-walk table after i free holds-noted j a
              (v.findable j a lt (sym (holds-noted j p) ∙ e))
      ]
    ]

    pub noted-Shadows : Shadows (noted table' i vc tid w) (update last addr (some (tid, w))) n
    unfolding update after
    noted-Shadows = record {
      idle = λ j. ground (arith, entry.active, entry.others j, v.idle j);
      known = λ j a lt e. elim (ℕ_discrete j i) [
        | yes p ↦ ground (arith, p, e, entry.addressed, entry.active)
        | no p ↦
            let held : shadow_holds table j ≡ some a = sym (holds-noted j p) ∙ e in
            let ne : a ≢ addr = λ q. alone j lt p (held ∙ ap some q) in
            ground (arith, p, ne, v.known j a lt held, entry.others j p)
      ];
      recorded = λ a h. elim (ℕ_discrete a addr) [
        | yes p ↦ (i, entry.inside, holds-here ∙ ap some (sym p))
        | no p ↦
            let (j, lt, held) = v.recorded a (ground (arith, h, p)) in
            (j, lt, holds-noted j (λ q. p (another j a q held)) ∙ held)
      ];
      findable = noted-findable;
      room = omega (
        arith,
        v.room,
        taken-le tsan_shadow_entries (shadow_holds table) (shadow_holds after) i holds-noted,
      );
    }
