-- ===== src/Common.antt =====
-- include/sanitizer/common.h and src/common/: what all the runtimes use.
pub mod Number
pub mod Printf
pub mod Platform
pub mod Alloc
pub mod Atomic
pub mod Bytes
pub mod Mapping
pub mod Lock
