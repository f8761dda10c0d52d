-- ===== src/Msan/Threads.antt =====
-- `msan_alloc_origin` of src/msan/msan_rtl.c between threads, which takes no lock: an atomic access
-- of `msan_origin_counter` at a time. Of the entry that a thread writes only the id is kept.
use misan.Prelude.{
  ℕ, ◌+◌, ◌^◌, ◌≤◌, ◌<◌, ◌≡◌, List, [], ◌∷◌, All, leb, if◌then◌else◌, update, update_all, tally,
  tally-update, tally-le, entry_all, refl, arith, ap, Bool-cases, inl, inr,
}
use misan.Common.Atomic.{drt_atomic_add, drt_atomic_store}
use misan.Msan.{msan_max_origins}

-- Where a thread stands: between two calls, before the addition, before the store that takes the
-- counter back, or before the writes to the entry of its id.
pub data Place : Type 0 where
  outside : Place
  adding : Place
  storing : Place
  writing : ℕ → Place

pub record Origins : Type 0 where
  pub counter : ℕ
  pub ids : List ℕ
  pub place : ℕ → Place

unfoldable pub move_from : Place → ℕ → Origins → Origins
unfolding drt_atomic_add drt_atomic_store
move_from outside i s = s
move_from adding i s =
    let id = drt_atomic_add s.counter 1 in
    record s {
      counter = id;
      place = update s.place i (if leb msan_max_origins id then storing else writing id);
    }
move_from storing i s = record s {
  counter = drt_atomic_store s.counter 2;
  place = update s.place i (writing 1);
}
move_from (writing id) i s = record s { ids = id ∷ s.ids; place = update s.place i outside }

unfoldable pub move : ℕ → Origins → Origins
unfolding move_from
move i s = move_from (s.place i) i s

-- The program has `n` threads.
pub data Step (n : ℕ) (s : Origins) : Origins → Type 0 where
  call :
      (i : ℕ)
      → i < n
      → s.place i ≡ outside
      → Step n s (record s { place = update s.place i adding })
  go : (i : ℕ) → i < n → Step n s (move i s)

pub data Reach (n : ℕ) : Origins → Type 0 where
  start : Reach n (record { counter = 1; ids = []; place = λ i. outside })
  later : {s t : Origins} → Reach n s → Step n s t → Reach n t

-- An id of the table.
abbrev pub IsOrigin : ℕ → Type 0
IsOrigin id = (0 < id) × (id < msan_max_origins)

-- What a thread holds in its registers.
abbrev pub IsFit : Place → Type 0
IsFit outside = Unit
IsFit adding = Unit
IsFit storing = Unit
IsFit (writing id) = IsOrigin id

abbrev pub stores : Place → ℕ
stores outside = 0
stores adding = 0
stores storing = 1
stores (writing id) = 0

-- The threads, of the first `n`, that are to store.
abbrev pub pending : ℕ → (ℕ → Place) → ℕ
pending n place = tally stores n place

pub record IsValid (n : ℕ) (s : Origins) : Type 0 where
  pub positive : 0 < s.counter
  pub counted : s.counter < msan_max_origins + pending n s.place
  pub handed_out : All IsOrigin s.ids
  pub fit : (i : ℕ) → IsFit (s.place i)

stores-le : (p : Place) → stores p ≤ 1
stores-le outside = omega arith
stores-le adding = omega arith
stores-le storing = omega arith
stores-le (writing id) = omega arith

module _ (n : ℕ) (few : n ≤ 2 ^ 31) where
  -- A thread that goes on from `p` to `q`, with a new counter and new ids.
  moved-IsValid :
      (i : ℕ) (s : Origins) (counter : ℕ) (ids : List ℕ) (p q : Place)
      → s.place i ≡ p
      → i < n
      → IsValid n s
      → 0 < counter
      → counter + stores p < msan_max_origins + pending n s.place + stores q
      → All IsOrigin ids
      → IsFit q
      → IsValid n (record { counter = counter; ids = ids; place = update s.place i q })
  moved-IsValid i s counter ids p q at thread v pos below all fit = record {
    positive = pos;
    counted = omega (arith, below, tally-update stores n s.place i q thread, ap stores at);
    handed_out = all;
    fit = update_all IsFit s.place i q v.fit fit;
  }

  added-IsValid :
      (i : ℕ) (s : Origins)
      → s.place i ≡ adding
      → i < n
      → IsValid n s
      → IsValid n (move_from adding i s)
  unfolding move_from drt_atomic_add
  added-IsValid i s at thread v =
      let below : s.counter + 1 < 2 ^ 32 =
        omega (arith, v.counted, tally-le stores n s.place stores-le) in
      let id : drt_atomic_add s.counter 1 ≡ s.counter + 1 =
        unfold drt_atomic_add in omega (arith, below) in
      elim (Bool-cases (leb msan_max_origins (s.counter + 1))) [
        | inl full ↦
            rw (id, full)
              (moved-IsValid i s (s.counter + 1) s.ids adding storing at thread v (omega arith)
                (omega (arith, v.counted)) v.handed_out tt)
        | inr room ↦
            rw (id, room)
              (moved-IsValid i s (s.counter + 1) s.ids adding (writing (s.counter + 1)) at thread v
                (omega arith) (ground arith) v.handed_out (omega arith, ground arith))
      ]

  move_from-IsValid :
      (p : Place) (i : ℕ) (s : Origins)
      → s.place i ≡ p
      → i < n
      → IsValid n s
      → IsValid n (move_from p i s)
  unfolding move_from drt_atomic_store
  move_from-IsValid outside i s at thread v = v
  move_from-IsValid adding i s at thread v = added-IsValid i s at thread v
  move_from-IsValid storing i s at thread v =
      moved-IsValid i s 2 s.ids storing (writing 1) at thread v (omega arith) (omega arith)
        v.handed_out (omega arith, omega arith)
  move_from-IsValid (writing id) i s at thread v =
      moved-IsValid i s s.counter (id ∷ s.ids) (writing id) outside at thread v v.positive
        (omega (arith, v.counted)) (entry_all IsFit s.place i (writing id) at v.fit, v.handed_out)
        tt

  Step-IsValid : {s t : Origins} → Step n s t → IsValid n s → IsValid n t
  unfolding move
  Step-IsValid {s} (call i thread at) v =
      moved-IsValid i s s.counter s.ids outside adding at thread v v.positive
        (omega (arith, v.counted)) v.handed_out tt
  Step-IsValid {s} (go i thread) v = move_from-IsValid (s.place i) i s refl thread v

  -- However the additions and stores of at most 2^31 threads that allocate an origin are
  -- interleaved, in every reachable state the ids that were handed out, and those that threads
  -- hold, are from 1 to 65535, so no write leaves the table, and the counter is positive and
  -- exceeds 65535 by at most the number of the threads that have yet to take it back.
  pub Reach-IsOrigin : {s : Origins} → Reach n s → IsValid n s
  Reach-IsOrigin start = record {
    positive = omega arith;
    counted = omega arith;
    handed_out = tt;
    fit = λ i. tt;
  }
  Reach-IsOrigin (later r step) = Step-IsValid step (Reach-IsOrigin r)
