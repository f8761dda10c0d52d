-- ===== src/Tests/ProgramRuns.antt =====
-- ThreadSanitizer: programs with several threads.
use misan.Prelude.{ℕ, none, ◌∷◌, List, [], ◌++◌, true, false, update, ◌≡◌, refl, arith, returns}
use misan.Tests.{idle}
use misan.Tests.TsanRuns.{fresh}
use misan.Tsan.Calls.{
  Call, func_entry, read, write, mutex_create, mutex_destroy, pre_lock, post_lock, pre_unlock,
  post_unlock,
}
use misan.Tsan.Clock.{tsan_vc_inc, tsan_vc_join, join_rounds, tsan_vc_happens_before}
use misan.Tsan.Abstract.{
  step, enter, access, acquire, release, races_with, AreFresh, initial, steps, goes_on, run,
  IsInitial,
}
use misan.Tsan.Abstract.Runs.{run-steps}
use misan.Tsan.Abstract.Unordered.{no_conflict}
use misan.Tsan.Abstract.Unordered.Programs.{run-no_conflict}

fresh-IsInitial : IsInitial fresh
fresh-IsInitial = record {
  free = refl;
  no_threads = refl;
  no_ids = λ self. refl;
  no_ticks = λ tid. refl;
  no_entries = λ i. (refl, refl);
  no_mutexes = λ i. refl;
}

-- The thread 700 hands the word at 4096 over to the thread 701, which destroys the mutex, writes
-- and creates a mutex at its address again.
abbrev in_order : List (ℕ × Call)
in_order =
    (700, mutex_create 64)
    ∷ (700, pre_lock 64)
    ∷ (700, post_lock 64)
    ∷ (700, write 4096)
    ∷ (701, func_entry)
    ∷ (700, pre_unlock 64)
    ∷ (700, post_unlock 64)
    ∷ (701, post_lock 64)
    ∷ (701, write 4096)
    ∷ (701, post_unlock 64)
    ∷ (701, mutex_destroy 64)
    ∷ (701, mutex_create 64)
    ∷ []

-- The thread 702 reads the word and races with 701.
abbrev handing_over : List (ℕ × Call)
handing_over = in_order ++ ((702, read 4096) ∷ [])

handing_over-AreFresh : AreFresh (λ addr. false) handing_over
unfolding update
handing_over-AreFresh =
    (refl, (tt, (tt, (tt, (tt, (tt, (tt, (tt, (tt, (tt, (tt, (refl, (tt, tt)))))))))))))

run-steps_example : returns (run 9 idle handing_over fresh) ≡ goes_on (steps handing_over initial)
run-steps_example =
    run-steps 9 idle handing_over fresh fresh-IsInitial (omega arith) (omega arith)
      handing_over-AreFresh

-- The last call is the one that is stopped.
handing_over-stops :
    (goes_on (steps in_order initial) ≡ true) × (goes_on (steps handing_over initial) ≡ false)
unfolding steps step enter access acquire release races_with update tsan_vc_inc tsan_vc_join
    join_rounds tsan_vc_happens_before
handing_over-stops = (refl, refl)

-- Two threads that read one word and then both test a mutex.
abbrev unordered_calls : List (ℕ × Call)
unordered_calls =
    (0, mutex_create 64)
    ∷ (0, read 4096)
    ∷ (1, read 4096)
    ∷ (1, pre_lock 64)
    ∷ (1, post_unlock 64)
    ∷ (0, pre_lock 64)
    ∷ []

run-no_conflict_example :
    returns (run 9 idle unordered_calls fresh) ≡ no_conflict unordered_calls (λ addr. none)
run-no_conflict_example =
    run-no_conflict 9 idle unordered_calls fresh fresh-IsInitial (omega arith) (omega arith)
      (refl, (tt, (tt, (tt, (tt, (tt, tt))))))
      (omega arith, (omega arith, (omega arith, (omega arith, (omega arith, (omega arith, tt))))))

no_conflict-calls : no_conflict unordered_calls (λ addr. none) ≡ false
unfolding no_conflict update
no_conflict-calls = refl

-- The thread 700 writes a word and hands it over to 701.
abbrev hand_over : List (ℕ × Call)
hand_over =
    (700, mutex_create 64)
    ∷ (700, post_lock 64)
    ∷ (700, write 4096)
    ∷ (700, post_unlock 64)
    ∷ (701, post_lock 64)
    ∷ []

abbrev two_more : List (ℕ × Call)
two_more = (700, write 8192) ∷ (700, write 8192) ∷ []

-- 701 reads the word at once, and is stopped where 700 has made two more accesses before.
two_more-stops :
    (goes_on (steps (hand_over ++ ((701, read 4096) ∷ [])) initial) ≡ true)
    × (goes_on (steps (hand_over ++ two_more ++ ((701, read 4096) ∷ [])) initial) ≡ false)
unfolding steps step enter access acquire release races_with update tsan_vc_inc tsan_vc_join
    join_rounds tsan_vc_happens_before
two_more-stops = (refl, refl)
