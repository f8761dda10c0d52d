-- ===== src/Common/Atomic.antt =====
-- include/sanitizer/common.h, the atomic operations, each as its effect on the word it is given. An
-- `int` is its 32 bits.
use misan.Prelude.{ℕ, ◌+◌, ◌-◌, ◌^◌, Bool, true, false, ◌==◌, if◌then◌else◌, u32}

-- The new word, which is also what the call returns.
unfoldable pub drt_atomic_add : ℕ → ℕ → ℕ
drt_atomic_add word val = u32 (word + val)

unfoldable pub drt_atomic_sub : ℕ → ℕ → ℕ
drt_atomic_sub word val = u32 (word + 2 ^ 32 - val)

unfoldable pub drt_atomic_load : ℕ → ℕ
drt_atomic_load word = word

unfoldable pub drt_atomic_store : ℕ → ℕ → ℕ
drt_atomic_store word val = val

-- Whether the exchange was made, and the new word.
unfoldable pub drt_atomic_cmpxchg : ℕ → ℕ → ℕ → Bool × ℕ
drt_atomic_cmpxchg word expected desired =
    if word == expected then (true, desired) else (false, word)
