-- ===== src/Common/Platform/Frames.antt =====
-- The loop of src/common/san_pal.c that captures a stack trace, against the chain of frames.
use misan.Prelude.{
  ℕ, zero, suc, ◌+◌, ◌<◌, ◌≡◌, [], ◌∷◌, true, false, leb, ◌==◌, if◌then◌else◌, u64, arith, refl,
  Bool-cases, inl, inr,
}
use misan.Common.Platform.{
  Machine, StackTrace, max_stack_frames, walk_frames, drt_arch_capture_stack_trace,
}

-- The return addresses of the first `n` frames of the chain that begins at `rbp` and ends at a null
-- frame pointer.
unfoldable pub chain : ℕ → (ℕ → ℕ) → ℕ → StackTrace
chain zero memory rbp = []
chain (suc n) memory rbp =
    let rest = chain n memory (memory rbp) in if rbp == 0 then [] else memory (u64 (rbp + 8)) ∷ rest

-- The frame behind `skip` frames, if the chain is that long.
unfoldable pub frame_behind : ℕ → (ℕ → ℕ) → ℕ → ℕ
frame_behind zero memory rbp = rbp
frame_behind (suc skip) memory rbp =
    let rest = frame_behind skip memory (memory rbp) in if rbp == 0 then 0 else rest

walk_frames-none :
    (rounds : ℕ) (memory : ℕ → ℕ) (skip count : ℕ) → walk_frames rounds memory 0 skip count ≡ []
unfolding walk_frames
walk_frames-none zero memory skip count = refl
walk_frames-none (suc rounds) memory skip count = refl

chain-none : (n : ℕ) (memory : ℕ → ℕ) → chain n memory 0 ≡ []
unfolding chain
chain-none zero memory = refl
chain-none (suc n) memory = refl

walk_frames-chain :
    (rounds : ℕ) (memory : ℕ → ℕ) (rbp count n : ℕ)
    → count + n ≡ max_stack_frames
    → n < rounds
    → walk_frames rounds memory rbp 0 count ≡ chain n memory rbp
unfolding walk_frames chain
walk_frames-chain zero memory rbp count n e lt = absurd (omega arith)
walk_frames-chain (suc rounds) memory rbp count zero e lt =
    let full : leb max_stack_frames count ≡ true = ground arith in ground (arith, full)
walk_frames-chain (suc rounds) memory rbp count (suc n) e lt =
    let room : leb max_stack_frames count ≡ false = ground arith in
    let ih =
      walk_frames-chain rounds memory (memory rbp) (count + 1) n (omega arith) (omega arith) in
    ground (arith, room, ih)

walk_frames-skip :
    (skip rounds : ℕ) (memory : ℕ → ℕ) (rbp : ℕ)
    → skip + max_stack_frames < rounds
    → walk_frames rounds memory rbp skip 0
      ≡ chain max_stack_frames memory (frame_behind skip memory rbp)
unfolding walk_frames frame_behind
walk_frames-skip zero rounds memory rbp lt =
    walk_frames-chain rounds memory rbp 0 max_stack_frames refl (omega arith)
walk_frames-skip (suc skip) zero memory rbp lt = absurd (omega arith)
walk_frames-skip (suc skip) (suc rounds) memory rbp lt =
    let ih = walk_frames-skip skip rounds memory (memory rbp) (omega arith) in
    elim (Bool-cases (rbp == 0)) [
      | inl is ↦ ground (arith, is, chain-none max_stack_frames memory)
      | inr ne ↦ ground (arith, ne, ih)
    ]

-- The stack trace consists of the return addresses of the first 32 frames of the chain of frame
-- pointers, behind the frames that are skipped, or of all if the chain ends before.
pub drt_arch_capture_stack_trace-chain :
    (m : Machine) (skip : ℕ)
    → drt_arch_capture_stack_trace m skip
      ≡ chain max_stack_frames m.word_at (frame_behind skip m.word_at m.rbp)
unfolding drt_arch_capture_stack_trace
drt_arch_capture_stack_trace-chain m skip =
    walk_frames-skip skip (suc (skip + max_stack_frames)) m.word_at m.rbp (omega arith)
