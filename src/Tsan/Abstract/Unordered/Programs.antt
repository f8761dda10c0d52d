-- ===== src/Tsan/Abstract/Unordered/Programs.antt =====
-- Programs without acquires stop exactly at the first conflict.
use misan.Prelude.{
  ℕ, suc, Bool, true, false, Option, none, some, List, [], ◌∷◌, All, ◌≡◌, ◌≤◌, ◌<◌, arith, refl,
  ◌∙◌, Option-cases, Bool-cases, inl, inr, returns, tally,
}
use misan.Common.Platform.{Machine}
use misan.Tsan.Table.{tsan_shadow_entries, tsan_max_mutexes}
use misan.Tsan.Runtime.{Tsan}
use misan.Tsan.Calls.{
  Call, func_entry, func_exit, read, write, mutex_create, mutex_destroy, pre_lock, post_lock,
  pre_unlock, post_unlock,
}
use misan.Tsan.Abstract.{
  View, initial, and_then, enter, access, release, step, steps, goes_on, run, entries, creations,
  total, AreFresh, IsInitial,
}
use misan.Tsan.Abstract.Runs.{run-steps}
use misan.Tsan.Abstract.Unordered.{
  Last, conflicts, touch, next, no_conflict, IsUnordered, Apart, enter-Apart, races_with-conflicts,
  accessed, accessed-Apart,
}

-- The one goes on where the other does.
abbrev Matches : ℕ → Option View → Option Last → Type 0
Matches n none none = Unit
Matches n none (some last) = ⊥
Matches n (some v) none = ⊥
Matches n (some v) (some last) = Apart v last n

-- Mutexes are no matter.
mutexes-Apart :
    (v : View) (last : Last) (n : ℕ) (mutexes : ℕ → Option (ℕ → ℕ))
    → Apart v last n
    → Apart (record v { mutexes = mutexes }) last n
mutexes-Apart v last n mutexes apart = record {
  counted = apart.counted;
  given = apart.given;
  distinct = apart.distinct;
  own = apart.own;
  foreign = apart.foreign;
  lasts = apart.lasts;
  fits = apart.fits;
}

release-Apart :
    (v : View) (last : Last) (n tid addr : ℕ) → Apart v last n → Apart (release v tid addr) last n
unfolding release
release-Apart v last n tid addr apart = elim (Option-cases (v.mutexes addr)) [
  | inl e ↦ rw (e, release) apart
  | inr (vc, e) ↦ rw (e, release) (mutexes-Apart v last n _ apart)
]

access-Matches :
    (v : View) (last : Last) (n self tid : ℕ) (addr : ℕ) (w : Bool)
    → v.ids self ≡ some tid
    → Apart v last (suc n)
    → Matches n (access v tid addr w) (touch self addr w last)
unfolding access
access-Matches v last n self tid addr w known apart =
    let same = races_with-conflicts v last n self tid apart known addr w in
    elim (Bool-cases (conflicts (last addr) self w)) [
      | inl race ↦ rw (access, same, race) tt
      | inr clear ↦
          rw (access, same, clear)
            (unfold accessed in accessed-Apart v last n self tid apart known addr w)
    ]

module _ (v : View) (last : Last) (self : ℕ) (inside : self < 63) where
  -- A thread gets its id, and goes on.
  enter-Matches :
      (m n : ℕ) (f : ℕ × View → Option View) (r : Option Last)
      → Apart v last m
      → ((tid : ℕ) (u : View) → u.ids self ≡ some tid → Apart u last m → Matches n (f (tid, u)) r)
      → Matches n (and_then (enter self v) f) r
  enter-Matches m n f r apart on =
      let (tid, u, e, known, apart') = enter-Apart v last m self apart inside in
      rw e (on tid u known apart')

  enter-access-Matches :
      (n addr : ℕ) (w : Bool)
      → Apart v last (suc n)
      → Matches n (and_then (enter self v) (λ r. access r.1 r.0 addr w)) (touch self addr w last)
  enter-access-Matches n addr w apart =
      enter-Matches (suc n) n _ _ apart
        (λ tid u known apart'. access-Matches u last n self tid addr w known apart')

step-Matches :
    (v : View) (last : Last) (self : ℕ) (c : Call) (n : ℕ)
    → IsUnordered (self, c)
    → Apart v last (entries c n)
    → Matches n (step self c v) (next self c last)
unfolding step
step-Matches v last self func_entry n inside apart =
    enter-Matches v last self inside n n _ _ apart (λ tid u known apart'. apart')
step-Matches v last self func_exit n inside apart = apart
step-Matches v last self (read addr) n inside apart =
    enter-access-Matches v last self inside n addr false apart
step-Matches v last self (write addr) n inside apart =
    enter-access-Matches v last self inside n addr true apart
step-Matches v last self (mutex_create addr) n inside apart = mutexes-Apart v last n _ apart
step-Matches v last self (mutex_destroy addr) n inside apart = mutexes-Apart v last n _ apart
step-Matches v last self (pre_lock addr) n inside apart =
    enter-access-Matches v last self inside n addr true apart
step-Matches v last self (post_lock addr) n inside apart = absurd inside
step-Matches v last self (pre_unlock addr) n inside apart =
    enter-access-Matches v last self inside n addr true apart
step-Matches v last self (post_unlock addr) n inside apart =
    enter-Matches v last self inside n n _ _ apart
      (λ tid u known apart'. release-Apart u last n tid addr apart')

-- What goes on from there matches if it does from every state.
Matches-and_then :
    (n : ℕ) (r : Option View) (r' : Option Last) (f : View → Option View) (g : Last → Bool)
    → Matches n r r'
    → ((v : View) (last : Last) → Apart v last n → goes_on (f v) ≡ g last)
    → goes_on (and_then r f) ≡ elim r' as (λ x. Bool) [ none ↦ false | some last ↦ g last ]
Matches-and_then n none none f g m on = refl
Matches-and_then n none (some last) f g m on = absurd m
Matches-and_then n (some v) none f g m on = absurd m
Matches-and_then n (some v) (some last) f g m on = on v last m

steps-no_conflict :
    (cs : List (ℕ × Call)) (v : View) (last : Last)
    → All IsUnordered cs
    → Apart v last (total entries cs)
    → goes_on (steps cs v) ≡ no_conflict cs last
unfolding steps no_conflict
steps-no_conflict [] v last unordered apart = refl
steps-no_conflict ((self, c) ∷ cs) v last unordered apart =
    let n = total entries cs in
    Matches-and_then n (step self c v) (next self c last) (steps cs) (no_conflict cs)
      (step-Matches v last self c n unordered.0 apart)
      (λ v' last' apart'. steps-no_conflict cs v' last' unordered.1 apart')

initial-Apart : (n : ℕ) → n ≤ 65536 → Apart initial (λ addr. none) n
initial-Apart n room = record {
  counted = unfold tally in refl;
  given = λ self tid e. cc e;
  distinct = λ self other tid e e'. cc e;
  own = λ self tid e. cc e;
  foreign = λ t u ne. refl;
  lasts = λ addr. inl (refl, refl);
  fits = omega arith;
}

-- From the static tables as a program starts, for threads numbered below 63 that acquire no
-- mutex, in whatever order they make their calls, the calls all return exactly if no access and
-- no test of a lock conflicts with the one before it to the same address, the two being by
-- different threads and one of them a write or a test of a lock, where at most 65536 calls are
-- accesses or tests of locks, at most 1024 mutexes are created, and none is created while it is
-- live.
pub run-no_conflict :
    (fuel : ℕ) (machine : Machine) (cs : List (ℕ × Call)) (s : Tsan)
    → IsInitial s
    → total entries cs ≤ tsan_shadow_entries
    → total creations cs ≤ tsan_max_mutexes
    → AreFresh (λ addr. false) cs
    → All IsUnordered cs
    → returns (run fuel machine cs s) ≡ no_conflict cs (λ addr. none)
run-no_conflict fuel machine cs s start shadow_room mutex_room fresh unordered =
    run-steps fuel machine cs s start shadow_room mutex_room fresh
    ∙ steps-no_conflict cs initial (λ addr. none) unordered
        (initial-Apart (total entries cs) shadow_room)
