-- ===== src/Tsan/Clock.antt =====
-- src/tsan/tsan_rtl.c, the vector clocks.
pub mod Join
use misan.Prelude.{ℕ, zero, suc, ◌+◌, Bool, ltb, leb, if◌then◌else◌, u64, update}

abbrev pub tsan_max_threads : ℕ
tsan_max_threads = 64

-- `tsan_vc_t`: the 64 counters.
abbrev pub Clock : Type 0
Clock = ℕ → ℕ

-- `drt_memset(&vc, 0, sizeof(tsan_vc_t))`.
abbrev pub zero_clock : Clock
zero_clock i = 0

unfoldable pub tsan_vc_inc : Clock → ℕ → Clock
tsan_vc_inc vc tid = update vc tid (u64 (vc tid + 1))

-- The loop of `tsan_vc_join` with the rounds that are left, at the index `i`.
unfoldable pub join_rounds : ℕ → ℕ → Clock → Clock → Clock
join_rounds zero i dst src = dst
join_rounds (suc rounds) i dst src =
    join_rounds rounds (i + 1) (if ltb (dst i) (src i) then update dst i (src i) else dst) src

unfoldable pub tsan_vc_join : Clock → Clock → Clock
tsan_vc_join dst src = join_rounds tsan_max_threads 0 dst src

unfoldable pub tsan_vc_happens_before : Clock → Clock → ℕ → Bool
tsan_vc_happens_before a b tid_a = leb (a tid_a) (b tid_a)
