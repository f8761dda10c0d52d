-- ===== src/Asan.antt =====
-- src/asan/: AddressSanitizer.
pub mod Shadow
pub mod Access
pub mod Start
pub mod Globals
pub mod FakeStack
pub mod Hooks
pub mod History
