-- ===== src/Tests/ThreadRuns.antt =====
-- Two threads at the spin lock, and one at the allocator.
use misan.Common.Atomic.{drt_atomic_add}
use misan.Tsan.Clock.{tsan_max_threads}
use misan.Prelude.{◌<◌, ◌↔◌, ℕ, ◌+◌, ◌*◌, ◌≡◌, false, List, [], ◌∷◌, update, arith, refl}
use misan.Common.Lock.{
  System, outside, waiting, inside, Reach, call, go, start, later, move, move_from, try_lock,
  unlock, access,
}
use misan.Common.Lock.Exclusion.{IsExclusive, Reach-IsExclusive}
use misan.Common.Lock.Progress.{move_all, move_all-enters}
use misan.Common.Lock.Serial.{Serial, Reach-Serial}
use misan.Common.Alloc.Threads.{Pool, IsValid, Reach-IsValid}
use misan.Common.Alloc.Threads
use misan.Msan.Threads as MsanThreads
use misan.Tsan.Runtime.Ids
use misan.Tsan.Runtime.Ids.{has_id, Reach-distinct}
use misan.Msan.Threads.{Origins, Reach-IsOrigin}

-- The shared number is doubled and then raised, in two accesses.
abbrev doubling : List (ℕ → ℕ)
doubling = (λ n. n * 2) ∷ (λ n. n + 1) ∷ []

abbrev IsDoubling : List (ℕ → ℕ) → Type 0
IsDoubling body = body ≡ doubling

abbrev both_out : System ℕ
both_out = record { shared = 5; lock = false; place = λ i. outside }

abbrev both_called : System ℕ
both_called =
    let one = record both_out { place = update both_out.place 0 (waiting doubling) } in
    record one { place = update one.place 1 (waiting doubling) }

both_called-Reach : Reach IsDoubling 5 both_called
unfolding update
both_called-Reach = later (later start (call 0 doubling refl refl)) (call 1 doubling refl refl)

-- The first thread takes the lock, the second tries it, and the first makes its accesses.
abbrev contended : System ℕ
contended = move 0 (move 0 (move 1 (move 0 both_called)))

contended-Reach : Reach IsDoubling 5 contended
contended-Reach = later (later (later (later both_called-Reach (go 0)) (go 1)) (go 0)) (go 0)

Reach-IsExclusive_example : IsExclusive contended
Reach-IsExclusive_example = Reach-IsExclusive IsDoubling contended-Reach

second_waits : contended.place 1 ≡ waiting doubling
unfolding update move move_from try_lock access
second_waits = refl

move_all-enters_example : (js : List ℕ) × ((move_all js contended).place 1 ≡ inside doubling)
move_all-enters_example =
    move_all-enters IsDoubling 5 contended 1 doubling contended-Reach second_waits

abbrev released : System ℕ
released = move 0 contended

released-free : released.lock ≡ false
unfolding update move move_from try_lock access unlock
released-free = refl

Reach-Serial_example : Serial IsDoubling 5 released.shared
Reach-Serial_example =
    Reach-Serial IsDoubling 5 released (later contended-Reach (go 0)) released-free

abbrev called : Pool
called = record {
  used = 0;
  blocks = [];
  place = update (λ i. Threads.outside) 3 (Threads.loading 24);
}

called-Reach : Threads.Reach 4096 called
called-Reach = Threads.later Threads.start (Threads.call 3 24 refl (omega arith))

Reach-IsValid_example : IsValid (Threads.move 3 (Threads.move 3 called))
Reach-IsValid_example =
    Reach-IsValid 4096 (omega arith)
      (Threads.later (Threads.later called-Reach (Threads.go 3)) (Threads.go 3))

-- Two threads at the origins: both are called, and the second adds before the first.
abbrev both_adding : Origins
both_adding = record {
  counter = 1;
  ids = [];
  place = update (update (λ i. MsanThreads.outside) 0 MsanThreads.adding) 1 MsanThreads.adding;
}

both_adding-Reach : MsanThreads.Reach 2 both_adding
unfolding update
both_adding-Reach =
    MsanThreads.later (MsanThreads.later MsanThreads.start (MsanThreads.call 0 (omega arith) refl))
      (MsanThreads.call 1 (omega arith) refl)

Reach-IsOrigin_example :
    MsanThreads.IsValid 2 (MsanThreads.move 1 (MsanThreads.move 0 (MsanThreads.move 1 both_adding)))
Reach-IsOrigin_example = Reach-IsOrigin 2 (omega arith) (
    MsanThreads.later
      (MsanThreads.later (MsanThreads.later both_adding-Reach (MsanThreads.go 1 (omega arith)))
        (MsanThreads.go 0 (omega arith)))
      (MsanThreads.go 1 (omega arith)))

-- The second of two threads asks for its id first.
abbrev two_started : Ids.Ids
two_started =
    let both_asked : Ids.Ids = record {
      thread_count = 0;
      place = update (update (λ i. Ids.outside) 0 Ids.adding) 1 Ids.adding;
    } in
    Ids.move 0 (Ids.move 1 (Ids.move 0 (Ids.move 1 both_asked)))

two_started-Reach : Ids.Reach 2 two_started
unfolding update
two_started-Reach =
    Ids.later
      (Ids.later
        (Ids.later
          (Ids.later
            (Ids.later (Ids.later Ids.start (Ids.call 0 (omega arith) refl))
              (Ids.call 1 (omega arith) refl))
            (Ids.go 1 (omega arith)))
          (Ids.go 0 (omega arith)))
        (Ids.go 1 (omega arith)))
      (Ids.go 0 (omega arith))

first_id : two_started.place 0 ≡ has_id 2
unfolding update Ids.move Ids.move_from drt_atomic_add
first_id = refl

second_id : two_started.place 1 ≡ has_id 1
unfolding update Ids.move Ids.move_from drt_atomic_add
second_id = refl

Reach-distinct_example : (0 < 2) × (2 < tsan_max_threads) × ((◌≡◌ {A = ℕ} 2 1) ↔ (◌≡◌ {A = ℕ} 0 1))
Reach-distinct_example = Reach-distinct 2 (omega arith) 0 1 2 1 two_started-Reach first_id second_id
