-- ===== src/Tests.antt =====
-- The theorems at concrete inputs, and the data that they share.
mod AsanRuns
mod LsanRuns
mod TsanRuns
mod ProgramRuns
mod HandlerRuns
mod LsanThreadRuns
mod CommonRuns
mod CfiRuns
mod MsanRuns
mod GlobalsRuns
mod ThreadRuns
mod UbsanRuns
use misan.Prelude.{ℕ, ◌+◌, ◌&&◌, leb, ltb, if◌then◌else◌, none, some, arith, ap}
use misan.Common.Mapping.{Mmap, IsMmap}
use misan.Common.Platform.{Machine}

-- A machine without frames whose memory is zero.
abbrev pub idle : Machine
idle = record { rbp = 0; word_at = λ a. 0; tsc = 77 }

-- A mapping that always succeeds.
abbrev pub always : Mmap
always no_replace addr size m = some (λ x. if leb addr x && ltb x (addr + size) then 0 else m x)

pub always-IsMmap : IsMmap always
always-IsMmap = record {
  zeroed = λ no_replace addr size m m' e x lo hi.
      ground (arith, ap (λ o. elim o as (λ _. ℕ) [ some f ↦ f x | none ↦ 1 ]) e);
  others = λ no_replace addr size m m' e x out.
      ground (arith, ap (λ o. elim o as (λ _. ℕ) [ some f ↦ f x | none ↦ 1 ]) e);
}
