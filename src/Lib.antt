-- ===== src/Lib.antt =====
-- misan: AddressSanitizer (ASan), LeakSanitizer (LSan), ThreadSanitizer (TSan), MemorySanitizer
-- (MSan) and UndefinedBehaviorSanitizer (UBSan) runtimes and a control flow integrity (CFI) check
-- in C, on a common layer that prints, takes stack traces, allocates and locks. The compiler's
-- instrumentation calls the runtimes; they keep their state in static tables and in shadow
-- memory, and end the program when they find an error.
--
-- Files, with the C code that each models:
-- - Common/Number.antt, Common/Printf.antt: src/common/san_printf.c, printing of numbers and
--   formats, `drt_die`. Common/Printf/Pieces.antt: formats as lists of pieces, and their texts.
-- - Common/Platform.antt: src/common/san_pal.c and include/sanitizer/common.h, the stack trace,
--   the time stamp and the spin lock as one thread meets it.
-- - Common/Mapping.antt: src/common/san_pal.c, the mapping of the shadow.
-- - Common/Atomic.antt: include/sanitizer/common.h, the atomic operations.
-- - Common/Lock.antt: include/sanitizer/common.h, the spin lock between threads.
--   Common/Lock/Handlers.antt: handlers that enter their sections when their code gets past the
--   lock.
-- - Common/Bytes.antt: include/sanitizer/common.h, `drt_memset` to `drt_strcmp`.
-- - Common/Alloc.antt, Common/Alloc/Threads.antt: src/common/san_printf.c, the internal allocator
--   as one thread meets it, and between threads.
-- - Asan/Shadow.antt, Asan/Access.antt, Asan/Globals.antt, Asan/Start.antt, Asan/FakeStack.antt,
--   Asan/Hooks.antt: src/asan/asan_rtl.c and src/asan/asan_hooks.c, the shadow, the access check,
--   the registration of globals, the start, the fake stacks and the hooks. Asan/History.antt:
--   sequences of calls that poison and unpoison, and the set of bytes that they describe.
-- - Lsan.antt, Lsan/Check.antt: src/lsan/lsan_rtl.c, the tables and the leak check.
--   Lsan/Live.antt: the table as a bag of live blocks.
-- - Tsan/Clock.antt, Tsan/Table.antt, Tsan/Runtime.antt, Tsan/Sync.antt, Tsan/Atomic.antt,
--   Tsan/Calls.antt: src/tsan/tsan_rtl.c, the clocks, the probing of the tables, accesses and
--   threads, the mutex hooks, the atomic operations, sequences of calls. Tsan/Runtime/Ids.antt:
--   thread ids between threads. Tsan/Calls/Alone.antt, Tsan/Calls/First.antt,
--   Tsan/Calls/Detected.antt: programs with one thread, the first thread before a second starts,
--   and the race with the second. Tsan/Abstract.antt: any number of threads, with maps of
--   addresses in place of the tables; Tsan/Abstract/Unordered.antt: programs without acquires,
--   with no clocks either; Tsan/Abstract/Full.antt: the full table of shadows;
--   Tsan/Abstract/Forgotten.antt: the clocks that its entries keep.
-- - Msan.antt, Msan/Start.antt: src/msan/msan_rtl.c, shadow, origins and checks.
--   Msan/History.antt: sequences of calls, and the set of bytes that they describe.
--   Msan/Threads.antt: the allocation of an origin between threads.
-- - Ubsan.antt, Ubsan/Data.antt, Ubsan/Aborts.antt, Ubsan/Report.antt: src/ubsan/ubsan_handlers.c
--   and include/sanitizer/ubsan_interface.h, the handlers, their `_abort` variants and their
--   data.
-- - Cfi.antt: src/cfi/cfi_rtl.c, the table of vtables and the check of a call. Cfi/Table.antt:
--   the table as a set of pairs.
-- - Prelude.antt: tests, lists, machine words, stores, and `Exec`, the result of a C call;
--   Prelude/Bags.antt: bags of numbers, lists without their order.
-- - Tests.antt: the theorems at concrete inputs.
-- The modules below these hold the proofs.
--
-- A definition has the name of its C function, less leading underscores; families such as
-- `__asan_load1` to `__asan_store16` or `__tsan_atomic8_load` to `__tsan_atomic64_load` are one
-- definition with the size as an argument. State is passed explicitly. Static tables are lists
-- (LSan, the entries below the count) or functions of the index (TSan); memory is a function of
-- the address. Machine words are natural numbers with the wrap written out. `Exec` tells a call
-- that returned from one that aborted, is still in a loop, or did what C leaves undefined, each
-- with the bytes printed so far.
--
-- Threads: the handlers of LSan, TSan and UBSan take a spin lock, but for the thread ids of TSan,
-- the float cast handler of UBSan and `__lsan_disable` and `__lsan_enable`; the handlers of ASan,
-- MSan and CFI take none. Each is modelled as a whole call. Common/Lock.antt models the lock
-- itself, for any number of threads and any critical sections as lists of accesses, with a step
-- for each atomic access; its specification is whole sections, one after the other.
-- Common/Lock/Handlers.antt is the same for handlers, whose threads enter their sections when the
-- code of the handler, run as a whole call, does not spin. Lsan/Interleaved.antt applies it to
-- the handlers of LSan that change the tables, each as any list of accesses that does what the
-- call does; leak checks and the switching of `lsan_disabled` are not interleaved.
-- Tsan/Interleaved.antt applies it to the handlers of TSan, for threads that have their ids; a
-- report that ends the program is a state of its own. The allocator takes no lock, nor do the
-- allocation of an MSan origin and the thread ids of TSan; their atomic accesses are modelled the
-- same way, and the writes to the entry of an origin by its id only.
--
-- The system call `mmap` is a parameter, `Mmap`; the theorems that need it assume `IsMmap`:
-- mapped bytes read 0 and no others change.
--
-- Fuel: `pad_loop` takes the rounds that it may spend as `fuel`; it either ends in its first test
-- or never, so one round is enough whenever the loop ends. `fill_digits` has 64 rounds, more than
-- a 64-bit number has digits in any base. `drt_vprintf` has a round for each byte of the format,
-- and each round takes at least one. Probing has a round for each slot. A stack walk has a round
-- for each frame skipped, each of the 32 slots, and one more. `drt_strlen` and `drt_strcmp` need
-- one round more than the string has bytes.
--
-- Not modelled: interleavings inside one handler, which the locks exclude but for the float cast
-- report of UBSan; the port that takes the output, yielding and aborting, which are instructions,
-- with the delay between two bytes; the build. A mutex or shadow entry is written in place by
-- index, and no pointer to one outlives the lock.
pub mod Prelude
pub mod Common
pub mod Asan
pub mod Lsan
pub mod Tsan
pub mod Cfi
pub mod Msan
pub mod Ubsan
mod Tests
