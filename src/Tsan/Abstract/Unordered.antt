-- ===== src/Tsan/Abstract/Unordered.antt =====
-- Programs without acquires: the threads are not ordered, and there are no clocks to compare.
pub mod Programs
use misan.Prelude.{
  ℕ, suc, ◌+◌, ◌^◌, Bool, true, false, Option, none, some, List, [], ◌∷◌, ◌==◌, ◌&&◌, ◌||◌, not,
  leb, ◌≡◌, ◌≢◌, ◌≤◌, ◌<◌, ◌⊎◌, inl, inr, if◌then◌else◌, update, arith, refl, ap, sym, ◌∙◌,
  Option-cases, Bool-cases, tally, tally-le, tally-update, u64,
}
use mathlib.Core.Option.{some-injective}
use native.Mathlib.Decide.{ℕ_discrete}
use misan.Tsan.Clock.{zero_clock, tsan_max_threads, tsan_vc_inc, tsan_vc_happens_before}
use misan.Tsan.Calls.{
  Call, func_entry, func_exit, read, write, mutex_create, mutex_destroy, pre_lock, post_lock,
  pre_unlock, post_unlock,
}
use misan.Tsan.Abstract.{View, enter, races_with, access}

-- The threads that accessed the addresses last, and whether they wrote.
abbrev pub Last : Type 0
Last = ℕ → Option (ℕ × Bool)

-- Two accesses by different threads, one of them a write.
abbrev pub conflicts : Option (ℕ × Bool) → ℕ → Bool → Bool
conflicts none self is_write = false
conflicts (some (other, was_write)) self is_write = not (other == self) && (is_write || was_write)

abbrev pub touch : ℕ → ℕ → Bool → Last → Option Last
touch self addr is_write last =
    if conflicts (last addr) self is_write
    then none
    else some (update last addr (some (self, is_write)))

-- A call, or `none` where it conflicts with the last access to the address.
abbrev pub next : ℕ → Call → Last → Option Last
next self (read addr) last = touch self addr false last
next self (write addr) last = touch self addr true last
next self (pre_lock addr) last = touch self addr true last
next self (pre_unlock addr) last = touch self addr true last
next self _ last = some last

-- No access conflicts with the one before it to the same address.
unfoldable pub no_conflict : List (ℕ × Call) → Last → Bool
no_conflict [] last = true
no_conflict ((self, c) ∷ cs) last = elim (next self c last) [
  | none ↦ false
  | some last' ↦ no_conflict cs last'
]

-- The thread is one of 63, and the call is no acquire.
abbrev pub IsUnordered : ℕ × Call → Type 0
IsUnordered (self, post_lock addr) = ⊥
IsUnordered (self, c) = self < 63

abbrev named : Option ℕ → ℕ
named none = 0
named (some tid) = 1

-- Every thread has seen its own time only.
pub record Apart (v : View) (last : Last) (n : ℕ) : Type 0 where
  pub counted : v.count ≡ tally named 63 v.ids
  pub given : (self tid : ℕ) → v.ids self ≡ some tid → (0 < tid) × (tid ≤ v.count)
  pub distinct :
      (self other tid : ℕ) → v.ids self ≡ some tid → v.ids other ≡ some tid → self ≡ other
  pub own :
      (self tid : ℕ)
      → v.ids self ≡ some tid
      → (0 < v.clocks tid tid) × (v.clocks tid tid + n < 2 ^ 64)
  pub foreign : (t u : ℕ) → t ≢ u → v.clocks t u ≡ 0
  pub lasts :
      (addr : ℕ)
      → ((last addr ≡ none) × (v.last addr ≡ none))
        ⊎ ((self : ℕ) × (tid : ℕ) × (w : Bool) × (last addr ≡ some (self, w))
            × (v.ids self ≡ some tid)
            × (v.last addr ≡ some (tid, w)))
  pub fits : n < 2 ^ 63

module _ (v : View) (last : Last) where
  -- The 63 threads all get an id.
  module _ (n self : ℕ) (apart : Apart v last n) (inside : self < 63) where
    started : View
    started = record v {
      ids = update v.ids self (some (v.count + 1));
      count = v.count + 1;
      clocks = update v.clocks (v.count + 1) (update zero_clock (v.count + 1) 1);
    }

    tally-started :
        v.ids self ≡ none → tally named 63 (update v.ids self (some (v.count + 1))) ≡ v.count + 1
    tally-started e =
        let one : named (v.ids self) ≡ 0 = ap named e in
        omega
          (arith, apart.counted, one, tally-update named 63 v.ids self (some (v.count + 1)) inside)

    named-le : (r : Option ℕ) → named r ≤ 1
    named-le none = omega arith
    named-le (some tid) = omega arith

    count-lt : v.ids self ≡ none → v.count + 1 < 64
    count-lt e = omega (
      arith,
      tally-started e,
      tally-le named 63 (update v.ids self (some (v.count + 1))) named-le,
    )

    started-Apart : v.ids self ≡ none → Apart started last n
    unfolding started update
    started-Apart e = record {
      counted = sym (tally-started e);
      given = λ other tid h. ground (arith, h, apart.given other tid);
      distinct = λ p q tid h k.
          ground (arith, h, k, apart.given p tid, apart.given q tid, apart.distinct p q tid);
      own =
          λ other tid h. ground (arith, h, apart.given other tid, apart.own other tid, apart.fits);
      foreign = λ t u ne. ground (arith, ne, apart.foreign t u);
      lasts = λ addr. elim (apart.lasts addr) [
        | inl absent ↦ inl absent
        | inr (other, tid, w, known, id, at) ↦ inr (other, tid, w, known, ground (arith, e, id), at)
      ];
      fits = apart.fits;
    }

    pub enter-Apart :
        (tid : ℕ) × (u : View) × (enter self v ≡ some (tid, u))
        × (u.ids self ≡ some tid)
        × Apart u last n
    unfolding enter
    enter-Apart = elim (Option-cases (v.ids self)) [
      | inr (tid, e) ↦ (tid, v, ground (arith, e), e, apart)
      | inl e ↦ (
        v.count + 1,
        started,
        unfold started in ground (arith, e, count-lt e),
        unfold started update in ground arith,
        started-Apart e,
      )
    ]

  -- An access that does not conflict leaves the threads apart.
  module _ (n self tid : ℕ) (apart : Apart v last (suc n)) (known : v.ids self ≡ some tid)
      (addr : ℕ) (w : Bool) where
    pub races_with-conflicts : races_with v (v.last addr) tid w ≡ conflicts (last addr) self w
    unfolding races_with tsan_vc_happens_before
    races_with-conflicts = elim (apart.lasts addr) [
      | inl (never, absent) ↦ rw (never, absent) refl
      | inr (other, t, was, at, id, at') ↦
          rw (at, at')
            (elim (ℕ_discrete t tid) [
              | yes p ↦
                  let same : other ≡ self = apart.distinct other self tid (id ∙ ap some p) known in
                  ground (arith, p, same)
              | no p ↦
                  let apart' : other ≢ self =
                    λ q. p (some-injective t tid (sym id ∙ ap v.ids q ∙ known)) in
                  ground (
                    arith,
                    p,
                    apart',
                    apart.own other t id,
                    apart.own self tid known,
                    apart.foreign t tid,
                    apart.foreign tid t (λ q. p (sym q)),
                  )
            ])
    ]

    unfoldable pub accessed : View
    accessed = record v {
      last = update v.last addr (some (tid, w));
      clocks = update v.clocks tid (tsan_vc_inc (v.clocks tid) tid);
    }

    pub accessed-Apart : Apart accessed (update last addr (some (self, w))) n
    unfolding accessed update tsan_vc_inc
    accessed-Apart = record {
      counted = apart.counted;
      given = apart.given;
      distinct = apart.distinct;
      own = λ other t h. ground (arith, h, apart.own other t h);
      foreign = λ t u ne. ground (arith, ne, apart.foreign t u ne);
      lasts = λ a. elim (ℕ_discrete a addr) [
        | yes p ↦ inr (self, tid, w, ground (arith, p), known, ground (arith, p))
        | no p ↦ elim (apart.lasts a) [
          | inl (never, absent) ↦ inl (ground (arith, p, never), ground (arith, p, absent))
          | inr (other, t, was, at, id, at') ↦
              inr (other, t, was, ground (arith, p, at), id, ground (arith, p, at'))
        ]
      ];
      fits = omega (arith, apart.fits);
    }
