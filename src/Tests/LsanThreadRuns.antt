-- ===== src/Tests/LsanThreadRuns.antt =====
-- LeakSanitizer: a handler between threads, an access at a time.
use misan.Prelude.{
  false, true, List, [], ◌∷◌, update, refl, ap, Exec, done, aborted, spinning, fault,
}
use misan.Common.Lock.{System, outside, waiting, inside, move}
use misan.Lsan.{Lsan}
use misan.Lsan.Tables
use misan.Lsan.Tables.{register_alloc, perform}
use misan.Lsan.Interleaved.{IsHandler}
use misan.Tests.{idle}

-- Registering the block at 4096, as an access that only reads and one that writes.
abbrev returned : Exec Lsan → Lsan → Lsan
returned (done o s') s = s'
returned (aborted o) s = s
returned (spinning o) s = s
returned (fault o) s = s

abbrev registering : List (Lsan → Lsan)
registering = (λ s. s) ∷ (λ s. returned (perform idle (register_alloc 4096 16) s) s) ∷ []

abbrev registering-IsHandler : IsHandler registering
registering-IsHandler = record {
  machine = idle;
  handled = register_alloc 4096 16;
  locks = refl;
  effect = λ s s' run. ap (λ m. returned m s) run;
}

abbrev no_blocks : Lsan
no_blocks = record { allocs = []; roots = []; disabled = false; locked = false }

abbrev registering_called : System Lsan
registering_called = record {
  shared = no_blocks;
  lock = false;
  place = update (λ i. outside) 2 (waiting registering);
}

abbrev in_section : System Lsan
in_section = record registering_called {
  lock = true;
  place = update registering_called.place 2 (inside registering);
}

abbrev registered : System Lsan
registered = move 2 (move 2 (move 2 in_section))
