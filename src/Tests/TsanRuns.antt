-- ===== src/Tests/TsanRuns.antt =====
-- ThreadSanitizer: clocks, small tables, and two threads.
use misan.Prelude.{
  ◌∷◌, List, ℕ, ◌+◌, ◌*◌, ◌<◌, true, false, Option, none, some, ◌==◌, ltb, if◌then◌else◌, [], ◌≡◌,
  ◌≢◌, inr, refl, arith, update, done, ◌>>=◌, returns,
}
use misan.Common.Bytes.{Memory}
use misan.Tsan.Calls.{
  Call, read, write, mutex_create, pre_lock, post_lock, pre_unlock, post_unlock, perform_all,
}
use misan.Tsan.Calls.Detected.{IsFresh, tsan_write_detected}
use misan.Tsan.Atomic.{tsan_atomic_load, tsan_atomic_store}
use misan.Tsan.Atomic.Values.{atomic_load-store}
use misan.Tsan.Runtime.{
  tsan_access, tsan_write, tsan_read, tsan_init, Tsan, tsan_mutex_find, tsan_get_tid,
}
use misan.Tests.{idle}
use misan.Tsan.Clock.{Clock, zero_clock}
use misan.Tsan.Table.{probe, tsan_mutex_index}
use misan.Tsan.Table.Probing.{IsAnswer, probe-IsAnswer}
use misan.Tsan.Runtime.Threads.{IsValid, tsan_get_tid-IsValid}
use misan.Tsan.Sync.{tsan_mutex_pre_lock}

abbrev four_slots : ℕ → Option ℕ
four_slots i = if i == 2 then none else some (i * 16)

probe-IsAnswer_example : IsAnswer four_slots 4 16 true (probe four_slots 4 16 true 4 3 3)
probe-IsAnswer_example = probe-IsAnswer four_slots 4 16 true 3 (omega arith)

abbrev pub fresh : Tsan
fresh = record {
  threads = λ i. record { tid = 0; vc = zero_clock; active = false };
  shadow = λ i. record { addr = 0; vc = zero_clock; tid = 0; is_write = false; active = false };
  mutexes = λ i. record { addr = 0; vc = zero_clock; owner_tid = none; active = false };
  thread_count = 0;
  current_tid = λ self. none;
  locked = false;
}

fresh-IsValid : IsValid fresh
fresh-IsValid = record {
  unlocked = refl;
  counted = omega arith;
  handed_out = λ self tid e. cc e;
  distinct = λ self other tid e e'. cc e;
  shadow_tid = λ i. omega arith;
}

tsan_get_tid-IsValid_example :
    (tid : ℕ) × (s' : Tsan) × (tsan_get_tid 9 idle 700 fresh ≡ done [] (tid, s'))
    × (0 < tid)
    × (tid < 64)
    × (s'.current_tid 700 ≡ some tid)
    × ((other : ℕ) → other ≢ 700 → s'.current_tid other ≡ fresh.current_tid other)
    × IsValid s'
tsan_get_tid-IsValid_example =
    tsan_get_tid-IsValid 9 idle 700 fresh fresh-IsValid (inr (omega arith))

-- The threads 0 to 62 have their ids.
abbrev crowded : Tsan
crowded = record fresh {
  thread_count = 63;
  current_tid = λ self. if ltb self 63 then some (self + 1) else none;
}

crowded-IsValid : IsValid crowded
crowded-IsValid = record {
  unlocked = refl;
  counted = omega arith;
  handed_out = λ self tid e. ground arith;
  distinct = λ self other tid e e'. ground arith;
  shadow_tid = λ i. omega arith;
}

-- The threads 700 and 701 have the ids 1 and 2; the mutex at 4096 is live.
abbrev two_threads : Tsan
two_threads = record fresh {
  threads =
      λ i. record { tid = i; vc = update zero_clock i (if i == 0 then 0 else 1); active = true };
  mutexes = λ i. record { addr = 4096; vc = zero_clock; owner_tid = none; active = i == 512 };
  thread_count = 2;
  current_tid = λ self. if self == 700 then some 1 else if self == 701 then some 2 else none;
}

fresh-IsFresh : IsFresh fresh
fresh-IsFresh = record {
  free = refl;
  no_threads = refl;
  no_ids = λ self. refl;
  no_entries = λ i. (refl, refl);
  no_ticks = refl;
  no_releases = λ i. (refl, refl);
}

-- A mutex that is created and used around two accesses.
abbrev lonely_calls : List Call
lonely_calls =
    mutex_create 64
    ∷ pre_lock 64
    ∷ post_lock 64
    ∷ write 4096
    ∷ read 4096
    ∷ pre_unlock 64
    ∷ post_unlock 64
    ∷ []

tsan_write_detected_example :
    (s' : Tsan) × (tsan_init 9 idle 700 fresh
        >>= perform_all 9 idle 700 lonely_calls
        >>= tsan_init 9 idle 701
        >>= (λ t. tsan_access 9 idle 700 t 4096 false)
      ≡ done [] s')
    × (returns (tsan_write 9 idle 701 s' 4096) ≡ false)
    × (returns (tsan_mutex_pre_lock 9 idle 701 s' 4096) ≡ false)
tsan_write_detected_example =
    tsan_write_detected 9 idle 700 701 lonely_calls fresh 4096 false fresh-IsFresh
      (λ e. omega arith) (omega arith)

live : tsan_mutex_find two_threads.mutexes 4096 false ≡ (some 512, two_threads.mutexes)
unfolding tsan_mutex_find probe tsan_mutex_index
live = refl

abbrev empty_memory : Memory
empty_memory a = 0

atomic_load-store_example :
    (tsan_atomic_store 9 idle 700 4 two_threads empty_memory 4096 0xDEADBEEF
      >>= (λ r. tsan_atomic_load 9 idle 701 4 r.1 r.0 4096))
    ≡ (tsan_write 9 idle 700 two_threads 4096 >>= λ s₁.
        tsan_read 9 idle 701 s₁ 4096 >>= λ s₂. done [] (0xDEADBEEF, s₂))
atomic_load-store_example =
    atomic_load-store 9 idle 700 701 4 two_threads empty_memory 4096 0xDEADBEEF (omega arith)
      (omega arith)

abbrev early : Clock
early = update zero_clock 1 3

abbrev late : Clock
late = update zero_clock 2 5
