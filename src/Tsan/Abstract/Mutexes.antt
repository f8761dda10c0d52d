-- ===== src/Tsan/Abstract/Mutexes.antt =====
-- The mutex table as a map from addresses to clocks.
use misan.Prelude.{
  ℕ, ◌+◌, true, false, Option, none, some, ◌≡◌, ◌≢◌, ◌≤◌, ◌<◌, ◌⊎◌, inl, inr, update, arith, ap,
  sym, ◌∙◌, Option-cases,
}
use mathlib.Core.Option.{some-injective}
use native.Mathlib.Decide.{ℕ_discrete}
use misan.Tsan.Clock.{Clock}
use misan.Tsan.Table.{Slot, found, claimed, probe, tsan_max_mutexes, tsan_mutex_index}
use misan.Tsan.Table.Findable.{found-inj, probe-ignores}
use misan.Tsan.Table.Stable.{probe-claimed-found}
use misan.Tsan.Table.Room.{taken, taken-freed}
use misan.Tsan.Runtime.{Mutex, mutex_holds, tsan_mutex_find}
use misan.Tsan.Sync.Transfer.{walk, walk-again, tsan_mutex_find_lem}

-- The table has the map's entries, each where the search finds it, and room for `n` more.
pub record Mutexes (table : ℕ → Mutex) (clocks : ℕ → Option Clock) (n : ℕ) : Type 0 where
  pub known :
      (i a : ℕ) → i < tsan_max_mutexes → mutex_holds table i ≡ some a → clocks a ≡ some (table i).vc
  pub recorded :
      (a : ℕ) → clocks a ≢ none → (i : ℕ) × (i < tsan_max_mutexes) × (mutex_holds table i ≡ some a)
  pub findable :
      (i a : ℕ) → i < tsan_max_mutexes → mutex_holds table i ≡ some a → walk table a ≡ found i
  pub room : taken tsan_max_mutexes (mutex_holds table) + n ≤ tsan_max_mutexes

-- The walk that may take a slot.
unfoldable pub claiming : (ℕ → Mutex) → ℕ → Slot
claiming table addr =
    probe (mutex_holds table) tsan_max_mutexes addr true tsan_max_mutexes (tsan_mutex_index addr)
      (tsan_mutex_index addr)

module _ (table : ℕ → Mutex) (clocks : ℕ → Option Clock) (n : ℕ) (v : Mutexes table clocks n)
    (addr : ℕ) where
  -- The search gives the entry of the map.
  pub mutex_find-view :
      ((tsan_mutex_find table addr false ≡ (none, table)) × (clocks addr ≡ none))
      ⊎ ((i : ℕ) × (tsan_mutex_find table addr false ≡ (some i, table))
          × (i < tsan_max_mutexes)
          × (mutex_holds table i ≡ some addr)
          × (clocks addr ≡ some (table i).vc))
  mutex_find-view = elim (tsan_mutex_find_lem table addr) [
    | inl (run, absent) ↦ inl (
      run,
      elim (Option-cases (clocks addr)) [
        | inl e ↦ e
        | inr (vc, e) ↦
            let (i, lt, held) = v.recorded addr (λ h. cc (h, e)) in absurd (absent i lt held)
      ],
    )
    | inr (i, run, lt, held, at) ↦ inr (i, run, lt, held, v.known i addr lt held)
  ]

  -- One entry has the address.
  alone :
      (i j : ℕ)
      → i < tsan_max_mutexes
      → j < tsan_max_mutexes
      → mutex_holds table i ≡ some addr
      → mutex_holds table j ≡ some addr
      → i ≡ j
  alone i j lt lt' e e' = found-inj (sym (v.findable i addr lt e) ∙ v.findable j addr lt' e')

  module _ (i : ℕ) (after : ℕ → Mutex) (inside : i < tsan_max_mutexes)
      (others : (j : ℕ) → j ≢ i → after j ≡ table j) where
    holds-others : (j : ℕ) → j ≢ i → mutex_holds after j ≡ mutex_holds table j
    holds-others j ne = ground (arith, others j ne)

    -- The walk finds a slot that was just taken.
    claimed-walk :
        mutex_holds table i ≡ none
        → mutex_holds after i ≡ some addr
        → claiming table addr ≡ claimed i
        → walk after addr ≡ found i
    unfolding walk claiming
    claimed-walk free here e =
        probe-claimed-found (mutex_holds table) (mutex_holds after) tsan_max_mutexes addr i free
          here holds-others false tsan_max_mutexes (tsan_mutex_index addr) (tsan_mutex_index addr) e

    -- The slot is no matter to the walk to another address.
    kept-walk :
        (j a : ℕ)
        → mutex_holds table i ≢ some a
        → mutex_holds after i ≢ some a
        → walk table a ≡ found j
        → walk after a ≡ found j
    unfolding walk
    kept-walk j a before now e =
        probe-ignores (mutex_holds table) (mutex_holds after) tsan_max_mutexes a i holds-others
          tsan_max_mutexes (tsan_mutex_index a) (tsan_mutex_index a) before now
        ∙ e

    -- The other entries of the map are where they were.
    recorded-other :
        (a : ℕ)
        → a ≢ addr
        → mutex_holds table i ≢ some a
        → clocks a ≢ none
        → (j : ℕ) × (j < tsan_max_mutexes) × (mutex_holds after j ≡ some a)
    recorded-other a ne away h =
        let (j, lt, held) = v.recorded a h in
        (j, lt, holds-others j (λ q. away (ap (mutex_holds table) (sym q) ∙ held)) ∙ held)

    -- An entry that is rewritten, or taken where the address was not in the table.
    pub put-Mutexes :
        (m : ℕ)
        → mutex_holds after i ≡ some addr
        → (mutex_holds table i ≡ some addr)
          ⊎ ((mutex_holds table i ≡ none)
              × (clocks addr ≡ none)
              × (claiming table addr ≡ claimed i))
        → taken tsan_max_mutexes (mutex_holds after) + m ≤ tsan_max_mutexes
        → Mutexes after (update clocks addr (some (after i).vc)) m
    unfolding update
    put-Mutexes m here before room = record {
      known = λ j a lt e. elim (ℕ_discrete j i) [
        | yes p ↦ let same : a ≡ addr = at_slot j a p e in ground (arith, same, p)
        | no p ↦
            ground
              (arith, other j a lt p e, v.known j a lt (sym (holds-others j p) ∙ e), others j p)
      ];
      recorded = λ a h. elim (ℕ_discrete a addr) [
        | yes p ↦ (i, inside, here ∙ ap some (sym p))
        | no p ↦ recorded-other a p (away a p) (ground (arith, h, p))
      ];
      findable = λ j a lt e. elim (ℕ_discrete j i) [
        | yes p ↦ rw (p, at_slot j a p e) here-walk
        | no p ↦
            let held : mutex_holds table j ≡ some a = sym (holds-others j p) ∙ e in
            let ne : a ≢ addr = other j a lt p e in
            kept-walk j a (away a ne) (λ q. ne (some-injective a addr (sym q ∙ here)))
              (v.findable j a lt held)
      ];
      room = room;
    }
      where
        at_slot : (j a : ℕ) → j ≡ i → mutex_holds after j ≡ some a → a ≡ addr
        at_slot j a p e = some-injective a addr (sym e ∙ ap (mutex_holds after) p ∙ here)

        -- Another slot has another address.
        other : (j a : ℕ) → j < tsan_max_mutexes → j ≢ i → mutex_holds after j ≡ some a → a ≢ addr
        other j a lt p e q =
            let held : mutex_holds table j ≡ some addr = sym (holds-others j p) ∙ e ∙ ap some q in
            elim before [
              | inl old ↦ p (alone j i lt inside held old)
              | inr (free, absent, at) ↦ cc (sym (v.known j addr lt held) ∙ absent)
            ]

        away : (a : ℕ) → a ≢ addr → mutex_holds table i ≢ some a
        away a p q = elim before [
          | inl old ↦ p (some-injective a addr (sym q ∙ old))
          | inr (free, absent, at) ↦ cc (sym q ∙ free)
        ]

        here-walk : walk after addr ≡ found i
        here-walk = elim before [
          | inl old ↦ walk-again table after addr i (v.findable i addr inside old) (λ k.
              elim (ℕ_discrete k i) [ yes p ↦ rw p (here ∙ sym old) | no p ↦ holds-others k p ])
          | inr (free, absent, at) ↦ claimed-walk free here at
        ]

    -- An entry that is given up.
    pub drop-Mutexes :
        mutex_holds table i ≡ some addr
        → mutex_holds after i ≡ none
        → Mutexes after (update clocks addr none) n
    unfolding update
    drop-Mutexes held gone = record {
      known = λ j a lt e.
          let p = moved j a e in
          let old : mutex_holds table j ≡ some a = sym (holds-others j p) ∙ e in
          ground (arith, other j a lt p old, v.known j a lt old, others j p);
      recorded = λ a h. elim (ℕ_discrete a addr) [
        | yes p ↦ absurd (h (ground (arith, p)))
        | no p ↦
            recorded-other a p (λ q. p (some-injective a addr (sym q ∙ held)))
              (ground (arith, h, p))
      ];
      findable = λ j a lt e.
          let p = moved j a e in
          let old : mutex_holds table j ≡ some a = sym (holds-others j p) ∙ e in
          kept-walk j a (λ q. other j a lt p old (some-injective a addr (sym q ∙ held)))
            (λ q. cc (sym q ∙ gone)) (v.findable j a lt old);
      room = omega (
        arith,
        v.room,
        taken-freed tsan_max_mutexes (mutex_holds table) (mutex_holds after) i holds-others gone,
      );
    }
      where
        moved : (j a : ℕ) → mutex_holds after j ≡ some a → j ≢ i
        moved j a e p = cc (sym e ∙ ap (mutex_holds after) p ∙ gone)

        other : (j a : ℕ) → j < tsan_max_mutexes → j ≢ i → mutex_holds table j ≡ some a → a ≢ addr
        other j a lt p e q = p (alone j i lt inside (e ∙ ap some q) held)
