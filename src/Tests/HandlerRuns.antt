-- ===== src/Tests/HandlerRuns.antt =====
-- ThreadSanitizer: a handler between threads, an access at a time, and a full table.
use misan.Prelude.{
  ℕ, ltb, Option, none, some, List, [], ◌∷◌, ◌==◌, if◌then◌else◌, false, update, ◌≡◌, refl, done,
  true, arith,
}
use misan.Common.Lock.{System, outside, waiting, inside, move}
use misan.Tsan.Runtime.{Tsan}
use misan.Tsan.Clock.{zero_clock}
use misan.Tsan.Abstract.{run}
use misan.Tsan.Abstract.Forgotten.{forget, forgotten}
use misan.Tsan.Abstract.Forgotten.Programs.{run-forget}
use misan.Tsan.Abstract.Full.{IsFull, run-full}
use misan.Tsan.Calls.{Call, write, pre_lock, perform}
use misan.Tsan.Interleaved.{outcome, IsHandler}
use misan.Tests.{idle}
use misan.Tests.TsanRuns.{fresh}

-- The threads 700 and 701 have the ids 1 and 2.
abbrev two_ids : ℕ → Option ℕ
two_ids self = if self == 700 then some 1 else if self == 701 then some 2 else none

abbrev two_named : Tsan
two_named = record fresh { thread_count = 2; current_tid = two_ids }

-- The handler of a write reads the tables, and then makes its entries.
abbrev writing : List (Option Tsan → Option Tsan)
writing =
    (λ r. r)
    ∷ (λ r. elim r [ none ↦ none | some s ↦ outcome (perform 9 idle 701 (write 4096) s) ])
    ∷ []

abbrev writing-IsHandler : IsHandler two_ids writing
writing-IsHandler = record {
  fuel = 9;
  machine = idle;
  self = 701;
  tid = 2;
  handled = write 4096;
  known = refl;
  locks = refl;
  effect = λ s free same. refl;
  halted = refl;
}

abbrev called : System (Option Tsan)
called = record {
  shared = some two_named;
  lock = false;
  place = update (λ i. outside) 5 (waiting writing);
}

abbrev in_section : System (Option Tsan)
in_section = record called { lock = true; place = update called.place 5 (inside writing) }

abbrev written : System (Option Tsan)
written = move 5 (move 5 (move 5 in_section))

-- Each entry is that of its own index.
abbrev occupied : Tsan
occupied = record two_named {
  shadow = λ i. record { addr = i; vc = zero_clock; tid = 1; is_write = true; active = true };
}

occupied-IsFull : IsFull occupied.shadow 70000
occupied-IsFull i within = ((λ e. cc e), (λ e. ground (arith, e)))

-- The threads write to one word and test a lock there.
abbrev racing : List (ℕ × Call)
racing = (700, write 70000) ∷ (701, write 70000) ∷ (700, pre_lock 70000) ∷ []

run-full_example : run 9 idle racing occupied ≡ done [] occupied
run-full_example =
    run-full 9 idle occupied 70000 refl occupied-IsFull racing
      ((refl, (λ e. cc e)), ((refl, (λ e. cc e)), ((refl, (λ e. cc e)), tt)))

-- The thread 700 wrote the words below 8192, at the time 7 of its clock.
abbrev kept : Tsan
kept = record two_named {
  shadow = λ i. record {
    addr = i;
    vc = update zero_clock 1 7;
    tid = 1;
    is_write = true;
    active = ltb i 8192;
  };
}

abbrev using_words : List (ℕ × Call)
using_words = (700, write 4096) ∷ (701, pre_lock 64) ∷ (701, write 4096) ∷ []

run-forget_example :
    forgotten (run 9 idle using_words kept) ≡ forgotten (run 9 idle using_words (forget kept))
run-forget_example = run-forget 9 idle using_words kept
