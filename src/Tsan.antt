-- ===== src/Tsan.antt =====
-- src/tsan/tsan_rtl.c: ThreadSanitizer. Arrays are functions of the index; the invariants bound
-- the indices that are used.
pub mod Clock
pub mod Table
pub mod Runtime
pub mod Sync
pub mod Calls
pub mod Atomic
pub mod Abstract
pub mod Interleaved
