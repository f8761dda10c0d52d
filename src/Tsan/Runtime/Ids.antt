-- ===== src/Tsan/Runtime/Ids.antt =====
-- `tsan_get_tid` of src/tsan/tsan_rtl.c between threads, which takes no lock: `tsan_thread_count` is
-- the only word that it shares, and is added to in one atomic access.
use misan.Prelude.{
  ℕ, zero, suc, ◌+◌, ◌^◌, ◌&&◌, ltb, ◌≤◌, ◌<◌, ◌≡◌, leb, ◌==◌, if◌then◌else◌, update, update_all,
  entry_all, tally, tally-update, tally-le, refl, arith, ◌↔◌, ap, sym, ◌∙◌, Bool-cases, inl, inr,
}
use misan.Common.Atomic.{drt_atomic_add}
use misan.Tsan.Clock.{tsan_max_threads}

-- Where a thread stands: without an id, before the addition, before the test of the value that it
-- got and the writes to its entry, with its id, or dead since there were too many threads.
pub data Place : Type 0 where
  outside : Place
  adding : Place
  starting : ℕ → Place
  has_id : ℕ → Place
  dead : Place

pub record Ids : Type 0 where
  pub thread_count : ℕ
  pub place : ℕ → Place

-- With an id the call only returns it. The value of the addition is a signed `int`, so that its
-- pattern is negative, and below 64, from 2^31 on.
unfoldable pub move_from : Place → ℕ → Ids → Ids
unfolding drt_atomic_add
move_from outside i s = s
move_from adding i s =
    let new_tid = drt_atomic_add s.thread_count 1 in
    record { thread_count = new_tid; place = update s.place i (starting new_tid) }
move_from (starting new_tid) i s = record s {
  place =
      update s.place i
        (if leb tsan_max_threads new_tid && ltb new_tid (2 ^ 31) then dead else has_id new_tid);
}
move_from (has_id tid) i s = s
move_from dead i s = s

unfoldable pub move : ℕ → Ids → Ids
unfolding move_from
move i s = move_from (s.place i) i s

-- The program has `n` threads.
pub data Step (n : ℕ) (s : Ids) : Ids → Type 0 where
  call :
      (i : ℕ)
      → i < n
      → s.place i ≡ outside
      → Step n s (record s { place = update s.place i adding })
  go : (i : ℕ) → i < n → Step n s (move i s)

pub data Reach (n : ℕ) : Ids → Type 0 where
  start : Reach n (record { thread_count = 0; place = λ i. outside })
  later : {s t : Ids} → Reach n s → Step n s t → Reach n t

-- The id that a thread has got, or 0.
abbrev pub held : Place → ℕ
held outside = 0
held adding = 0
held (starting new_tid) = new_tid
held (has_id tid) = tid
held dead = 0

-- An id that a thread has is an entry of `tsan_threads`.
abbrev pub IsFit : Place → Type 0
IsFit (has_id tid) = (0 < tid) × (tid < tsan_max_threads)
IsFit (starting new_tid) = 0 < new_tid
IsFit _ = Unit

abbrev pub counts : Place → ℕ
counts outside = 0
counts adding = 0
counts (starting new_tid) = 1
counts (has_id tid) = 1
counts dead = 1

-- The counter is the number of the threads that have added; the ids that threads have got are at
-- most the counter, and no two threads have got the same.
pub record IsCounted (n : ℕ) (s : Ids) : Type 0 where
  pub counted : s.thread_count ≡ tally counts n s.place
  pub fit : (i : ℕ) → IsFit (s.place i)
  pub below : (i : ℕ) → held (s.place i) ≤ s.thread_count
  pub distinct : (i j : ℕ) → 0 < held (s.place i) → held (s.place i) ≡ held (s.place j) → i ≡ j

counts-le : (p : Place) → counts p ≤ 1
counts-le outside = omega arith
counts-le adding = omega arith
counts-le (starting new_tid) = omega arith
counts-le (has_id tid) = omega arith
counts-le dead = omega arith

held-update :
    (place : ℕ → Place) (i : ℕ) (p : Place) (j : ℕ)
    → held (update place i p j) ≡ (if j == i then held p else held (place j))
unfolding update
held-update place i p j = elim (Bool-cases (j == i)) [
  | inl same ↦ rw same refl
  | inr other ↦ rw other refl
]

tally-zero : (n : ℕ) → tally counts n (λ i. outside) ≡ 0
unfolding tally
tally-zero zero = refl
tally-zero (suc n) = omega (arith, tally-zero n)

module _ (n : ℕ) (few : n < 2 ^ 31) where
  -- What the other threads have got is as before.
  held-others :
      (place : ℕ → Place) (i : ℕ) (q : Place) (j : ℕ)
      → (0 < held q → held q ≡ held (place i))
      → 0 < held (update place i q j)
      → held (update place i q j) ≡ held (place j)
  held-others place i q j keeps pos = elim (Bool-cases (j == i)) [
    | inl same ↦
        let at : j ≡ i = ground (arith, same) in
        let here : held (place j) ≡ held (place i) = ap (λ k. held (place k)) at in
        ground (arith, same, here, held-update place i q j, keeps)
    | inr other ↦ ground (arith, other, held-update place i q j)
  ]

  -- A thread that keeps its id or gives it up.
  kept-IsCounted :
      (i : ℕ) (s : Ids) (p q : Place)
      → s.place i ≡ p
      → i < n
      → IsCounted n s
      → counts q ≡ counts p
      → (0 < held q → held q ≡ held p)
      → IsFit q
      → IsCounted n (record s { place = update s.place i q })
  kept-IsCounted i s p q at thread v same keeps fit =
      let keeps' : 0 < held q → held q ≡ held (s.place i) = λ h. keeps h ∙ ap held (sym at) in
      record {
        counted =
            omega (arith, v.counted, tally-update counts n s.place i q thread, same, ap counts at);
        fit = update_all IsFit s.place i q v.fit fit;
        below = λ j. ground (arith, v.below j, held-others s.place i q j keeps');
        distinct = λ a b pos e.
            let before_a = held-others s.place i q a keeps' pos in
            let before_b = held-others s.place i q b keeps' (omega (arith, pos, e)) in
            v.distinct a b (omega (arith, pos, before_a)) (sym before_a ∙ e ∙ before_b);
      }

  -- The thread that adds gets an id above all others.
  added-IsCounted :
      (i : ℕ) (s : Ids)
      → s.place i ≡ adding
      → i < n
      → IsCounted n s
      → IsCounted n (move_from adding i s)
  unfolding move_from drt_atomic_add
  added-IsCounted i s at thread v =
      let room : s.thread_count + 1 < 2 ^ 32 =
        omega (arith, v.counted, tally-le counts n s.place counts-le) in
      let id : drt_atomic_add s.thread_count 1 ≡ s.thread_count + 1 =
        unfold drt_atomic_add in omega (arith, room) in
      rw id (record {
        counted = omega (
          arith,
          v.counted,
          tally-update counts n s.place i (starting (s.thread_count + 1)) thread,
          ap counts at,
        );
        fit = update_all IsFit s.place i (starting (s.thread_count + 1)) v.fit (omega arith);
        below =
            λ j. ground (arith, v.below j, held-update s.place i (starting (s.thread_count + 1)) j);
        distinct = λ a b pos e. ground (
          arith,
          pos,
          e,
          v.below a,
          v.below b,
          v.distinct a b,
          held-update s.place i (starting (s.thread_count + 1)) a,
          held-update s.place i (starting (s.thread_count + 1)) b,
        );
      })

  started-IsCounted :
      (new_tid i : ℕ) (s : Ids)
      → s.place i ≡ starting new_tid
      → i < n
      → IsCounted n s
      → IsCounted n (move_from (starting new_tid) i s)
  unfolding move_from
  started-IsCounted new_tid i s at thread v =
      let small : new_tid < 2 ^ 31 =
        omega (arith, v.below i, ap held at, v.counted, tally-le counts n s.place counts-le) in
      elim (Bool-cases (leb tsan_max_threads new_tid && ltb new_tid (2 ^ 31))) [
        | inl full ↦
            rw full
              (kept-IsCounted i s (starting new_tid) dead at thread v refl (λ h. omega arith) tt)
        | inr room ↦ rw room (
            kept-IsCounted i s (starting new_tid) (has_id new_tid) at thread v refl (λ h. refl)
              (entry_all IsFit s.place i (starting new_tid) at v.fit, ground arith))
      ]

  move_from-IsCounted :
      (p : Place) (i : ℕ) (s : Ids)
      → s.place i ≡ p
      → i < n
      → IsCounted n s
      → IsCounted n (move_from p i s)
  unfolding move_from
  move_from-IsCounted outside i s at thread v = v
  move_from-IsCounted adding i s at thread v = added-IsCounted i s at thread v
  move_from-IsCounted (starting new_tid) i s at thread v = started-IsCounted new_tid i s at thread v
  move_from-IsCounted (has_id tid) i s at thread v = v
  move_from-IsCounted dead i s at thread v = v

  Step-IsCounted : {s t : Ids} → Step n s t → IsCounted n s → IsCounted n t
  unfolding move
  Step-IsCounted {s} (call i thread at) v =
      kept-IsCounted i s outside adding at thread v refl (λ h. omega arith) tt
  Step-IsCounted {s} (go i thread) v = move_from-IsCounted (s.place i) i s refl thread v

  Reach-IsCounted : {s : Ids} → Reach n s → IsCounted n s
  Reach-IsCounted start = record {
    counted = sym (tally-zero n);
    fit = λ i. tt;
    below = λ i. omega arith;
    distinct = λ i j pos e. omega arith;
  }
  Reach-IsCounted (later r step) = Step-IsCounted step (Reach-IsCounted r)

  -- However the additions of fewer than 2^31 threads that ask for an id are interleaved, in every
  -- reachable state an id that a thread has is from 1 to 63, so it is an entry of the table, and
  -- two ids that threads have are equal exactly when the threads are.
  pub Reach-distinct :
      {s : Ids} (i j tid other : ℕ)
      → Reach n s
      → s.place i ≡ has_id tid
      → s.place j ≡ has_id other
      → (0 < tid) × (tid < tsan_max_threads) × ((tid ≡ other) ↔ (i ≡ j))
  Reach-distinct {s} i j tid other r at at' =
      let v = Reach-IsCounted r in
      let (pos, small) = entry_all IsFit s.place i (has_id tid) at v.fit in
      (
        pos,
        small,
        (
          λ e. v.distinct i j (omega (arith, pos, ap held at)) (ap held at ∙ e ∙ sym (ap held at')),
          λ e. ap held (sym at ∙ ap s.place e ∙ at'),
        ),
      )
