-- ===== src/Tsan/Atomic/Values.antt =====
-- The values that the atomic operations write and read.
use misan.Prelude.{
  ℕ, zero, suc, ◌+◌, ◌/◌, ◌%◌, ◌^◌, ◌<◌, ◌≡◌, true, false, u64, update, done, aborted, spinning,
  fault, after, pure, Exec, ◌>>=◌, ap, ◌∙◌, arith, refl, [],
}
use native.Mathlib.Nat.{pow-suc}
use misan.Common.Bytes.{Memory}
use misan.Common.Platform.{Machine}
use misan.Tsan.Runtime.{Tsan, tsan_access, tsan_read, tsan_write}
use mathlib.Core.List.{append-nil}
use misan.Tsan.Atomic.{load_bytes, store_bytes, tsan_atomic_load, tsan_atomic_store}

store_bytes-before :
    (n : ℕ) (m : Memory) (addr val x : ℕ)
    → addr + n < 2 ^ 64
    → x < addr
    → store_bytes n m addr val x ≡ m x
unfolding store_bytes update
store_bytes-before zero m addr val x fits lt = refl
store_bytes-before (suc n) m addr val x fits lt =
    let next : u64 (addr + 1) ≡ addr + 1 = omega arith in
    rw next
      (ground (arith, store_bytes-before n (update m addr (val % 256)) (addr + 1) (val / 256) x))

-- What is stored is loaded again, if it fits the bytes.
pub load_bytes-store_bytes :
    (n : ℕ) (m : Memory) (addr val : ℕ)
    → addr + n < 2 ^ 64
    → val < 256 ^ n
    → load_bytes n (store_bytes n m addr val) addr ≡ val
unfolding load_bytes store_bytes update
load_bytes-store_bytes zero m addr val fits small = omega arith
load_bytes-store_bytes (suc n) m addr val fits small =
    let next : u64 (addr + 1) ≡ addr + 1 = omega arith in
    rw next (
      ground (
        arith,
        store_bytes-before n (update m addr (val % 256)) (addr + 1) (val / 256) addr,
        load_bytes-store_bytes n (update m addr (val % 256)) (addr + 1) (val / 256) (omega arith)
            (omega (arith, pow-suc 256 n)),
      ))

-- What only computes behind a call.
bind-pure {ℓ κ μ} :
    {A : Type ℓ} {B : Type κ} {C : Type μ} (m : Exec A) (h : A → B) (k : B → Exec C)
    → (m >>= (λ a. pure (h a)) >>= k) ≡ (m >>= λ a. k (h a))
bind-pure (done o a) h k = ap (λ p. after p (k (h a))) (append-nil o)
bind-pure (aborted o) h k = refl
bind-pure (spinning o) h k = refl
bind-pure (fault o) h k = refl

-- An atomic store by a thread and an atomic load behind it by the same or another thread are
-- checked and recorded as a plain write and a plain read of the address: they end and print as
-- these do and leave the same tables, and the load gives the value, if this fits the bytes and
-- they do not go round the end of the address space.
pub atomic_load-store :
    (fuel : ℕ) (machine : Machine) (self other bytes : ℕ) (s : Tsan) (m : Memory) (addr val : ℕ)
    → addr + bytes < 2 ^ 64
    → val < 256 ^ bytes
    → (tsan_atomic_store fuel machine self bytes s m addr val
        >>= (λ r. tsan_atomic_load fuel machine other bytes r.1 r.0 addr))
      ≡ (tsan_write fuel machine self s addr >>= λ s₁.
          tsan_read fuel machine other s₁ addr >>= λ s₂. done [] (val, s₂))
unfolding tsan_atomic_load tsan_atomic_store tsan_write tsan_read
atomic_load-store fuel machine self other bytes s m addr val fits small =
    bind-pure (tsan_access fuel machine self s addr true) (λ s'. (store_bytes bytes m addr val, s'))
      (λ r. tsan_access fuel machine other r.1 addr false >>= λ s'.
        pure (load_bytes bytes r.0 addr, s'))
    ∙ ap
        (λ (v : ℕ). tsan_access fuel machine self s addr true >>= λ s₁.
          tsan_access fuel machine other s₁ addr false >>= λ s₂. done [] (v, s₂))
        (load_bytes-store_bytes bytes m addr val fits small)
