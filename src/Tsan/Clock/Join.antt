-- ===== src/Tsan/Clock/Join.antt =====
-- Joining clocks is the pointwise maximum.
use misan.Prelude.{
  ℕ, zero, suc, ◌+◌, true, ltb, leb, ◌&&◌, if◌then◌else◌, update, ◌≡◌, ◌<◌, max, arith,
}
use misan.Tsan.Clock.{Clock, join_rounds, tsan_vc_join, tsan_vc_happens_before, tsan_max_threads}

join_rounds_lem :
    (rounds i : ℕ) (dst src : Clock) (t : ℕ)
    → join_rounds rounds i dst src t
      ≡ (if leb i t && ltb t (i + rounds) then max (dst t) (src t) else dst t)
unfolding join_rounds
join_rounds_lem zero i dst src t = ground arith
join_rounds_lem (suc rounds) i dst src t = ground (
  arith,
  join_rounds_lem rounds (i + 1) (if ltb (dst i) (src i) then update dst i (src i) else dst) src t,
  step,
)
  where
    step :
        (if ltb (dst i) (src i) then update dst i (src i) else dst) t
        ≡ (if leb i t && leb t i then max (dst t) (src t) else dst t)
    step = unfold update in ground arith

-- `tsan_vc_join` takes the larger counter of each thread.
pub tsan_vc_join_lem :
    (dst src : Clock) (t : ℕ) → t < tsan_max_threads → tsan_vc_join dst src t ≡ max (dst t) (src t)
unfolding tsan_vc_join
tsan_vc_join_lem dst src t h = ground (arith, join_rounds_lem tsan_max_threads 0 dst src t)

-- Every entry of `a` is at most that of `b`.
abbrev pub IsBelow : Clock → Clock → Type 0
IsBelow a b = (t : ℕ) → t < tsan_max_threads → tsan_vc_happens_before a b t ≡ true
