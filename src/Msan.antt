-- ===== src/Msan.antt =====
-- src/msan/msan_rtl.c: MemorySanitizer. The shadow and the origins lie in one byte memory.
pub mod Checks
pub mod Poisoned
pub mod Start
pub mod Unpoisoned
pub mod History
pub mod Threads
use misan.Prelude.{
  ℕ, zero, suc, ◌+◌, ◌-◌, ◌*◌, ◌/◌, ◌%◌, ◌^◌, Bool, true, false, List, [], ◌∷◌, ◌==◌, ◌&&◌, ◌||◌,
  not, ltb, leb, if◌then◌else◌, u32, u64, update, literal, Exec, ◌>>=◌, ◌>>◌, pure, abort, fault,
  ◌>>>◌,
}
use misan.Common.Number.{drt_puts}
use misan.Common.Printf.{word, drt_printf}
use misan.Common.Platform.{
  Machine, StackTrace, drt_arch_capture_stack_trace, drt_arch_get_time_ns, drt_print_stack_trace,
  drt_spin_lock, drt_spin_unlock,
}

abbrev pub msan_shadow_base : ℕ
msan_shadow_base = 0xFFFF700000000000

abbrev pub msan_origin_base : ℕ
msan_origin_base = 0xFFFF600000000000

abbrev pub msan_max_origins : ℕ
msan_max_origins = 65536

pub record Origin : Type 0 where
  pub id : ℕ
  pub stack : StackTrace
  pub timestamp : ℕ
  pub active : Bool

pub record Msan : Type 0 where
  pub memory : ℕ → ℕ
  pub origins : ℕ → Origin
  pub origin_counter : ℕ
  pub track_origins : Bool
  pub locked : Bool

unfoldable pub msan_shadow_ptr : ℕ → ℕ
msan_shadow_ptr addr = u64 (msan_shadow_base + addr)

unfoldable pub msan_origin_ptr : ℕ → ℕ
msan_origin_ptr addr = u64 (msan_origin_base + u64 (addr * 4))

-- `for (i = 0; i < size; i++) shadow[i] = val;` with the rounds left, at the index `i`.
unfoldable pub fill_bytes : ℕ → ℕ → (ℕ → ℕ) → ℕ → ℕ → ℕ → ℕ
fill_bytes zero i m p val = m
fill_bytes (suc rounds) i m p val = fill_bytes rounds (i + 1) (update m (u64 (p + i)) val) p val

-- A `uint32_t` as its four bytes, lowest first.
unfoldable pub store_u32 : (ℕ → ℕ) → ℕ → ℕ → ℕ → ℕ
store_u32 m p val =
    update
      (update (update (update m p (val % 256)) (u64 (p + 1)) ((val >>> 8) % 256)) (u64 (p + 2))
        ((val >>> 16) % 256))
      (u64 (p + 3)) ((val >>> 24) % 256)

unfoldable pub load_u32 : (ℕ → ℕ) → ℕ → ℕ
load_u32 m p = m p + m (u64 (p + 1)) * 2 ^ 8 + m (u64 (p + 2)) * 2 ^ 16 + m (u64 (p + 3)) * 2 ^ 24

-- `for (i = 0; i < size; i++) origin[i] = val;`.
unfoldable pub fill_words : ℕ → ℕ → (ℕ → ℕ) → ℕ → ℕ → ℕ → ℕ
fill_words zero i m p val = m
fill_words (suc rounds) i m p val =
    fill_words rounds (i + 1) (store_u32 m (u64 (p + 4 * i)) val) p val

unfoldable msan_get_track_origins : Msan → ℕ
msan_get_track_origins s = if s.track_origins then 1 else 0

unfoldable pub msan_unpoison : Msan → ℕ → ℕ → Msan
msan_unpoison s addr size =
    if addr == 0 || size == 0
    then s
    else (let cleared = fill_bytes size 0 s.memory (msan_shadow_ptr addr) 0x00 in
        record s {
          memory =
              if s.track_origins
              then fill_words size 0 cleared (msan_origin_ptr addr) 0
              else cleared;
        })

unfoldable pub msan_poison : Msan → ℕ → ℕ → Msan
msan_poison s addr size =
    if addr == 0 || size == 0
    then s
    else record s { memory = fill_bytes size 0 s.memory (msan_shadow_ptr addr) 0xFF }

unfoldable pub msan_set_origin : Msan → ℕ → ℕ → ℕ → Msan
msan_set_origin s addr size origin_id =
    if not s.track_origins || addr == 0 || size == 0
    then s
    else record s { memory = fill_words size 0 s.memory (msan_origin_ptr addr) origin_id }

-- `drt_atomic_add` gives the new counter, here below 2^31.
unfoldable pub msan_alloc_origin : Machine → Msan → ℕ × Msan
msan_alloc_origin machine s =
    let next = s.origin_counter + 1 in
    let wraps = leb msan_max_origins next in
    let id = (if wraps then 1 else next) in
    (
      id,
      record s {
        origin_counter = if wraps then 2 else next;
        origins = update s.origins id (record {
          id = id;
          stack = drt_arch_capture_stack_trace machine 2;
          timestamp = drt_arch_get_time_ns machine;
          active = true;
        });
      },
    )

-- The stack of `origin` copied to `new_id`.
unfoldable pub copy_stack : Msan → ℕ → ℕ → Msan
copy_stack s new_id origin = record s {
  origins =
      update s.origins new_id (record (s.origins new_id) { stack = (s.origins origin).stack });
}

-- An `origin` behind the table is read out of bounds.
unfoldable pub msan_chain_origin : Machine → Msan → ℕ → Exec (ℕ × Msan)
unfolding drt_spin_lock drt_spin_unlock
msan_chain_origin machine s origin =
    if origin == 0
    then pure (0, s)
    else (let r = msan_alloc_origin machine s in
        drt_spin_lock r.1.locked >>= λ held.
        (if leb msan_max_origins origin then fault [] else drt_spin_unlock held) >>= λ released.
        pure (r.0, record (copy_stack r.1 r.0 origin) { locked = released }))

module _ (fuel : ℕ) (machine : Machine) where
  unfoldable pub origin_text : Msan → ℕ → Exec (Unit {0})
  origin_text s oid = elim (not (oid == 0) && ltb oid msan_max_origins && (s.origins oid).active) [
    | true ↦
        drt_printf fuel "  Origin: #%u  Timestamp: %llu\n"
          (word oid ∷ word (s.origins oid).timestamp ∷ [])
        >> drt_puts (literal "  Origin stack:\n")
        >> drt_print_stack_trace fuel (s.origins oid).stack
    | false ↦ pure tt
  ]

  unfoldable pub msan_report_uninit : Msan → ℕ → ℕ → Exec Bool
  unfolding drt_spin_lock drt_spin_unlock
  msan_report_uninit s addr size = do
    held ← drt_spin_lock s.locked
    drt_printf fuel "\n==MSAN: USE OF UNINITIALIZED MEMORY==\n" []
    drt_printf fuel "  Address: %p  Size: %zu\n" (word addr ∷ word size ∷ [])
    if s.track_origins then origin_text s (load_u32 s.memory (msan_origin_ptr addr)) else pure tt
    drt_puts (literal "  Access stack:\n")
    drt_print_stack_trace fuel (drt_arch_capture_stack_trace machine 2)
    drt_spin_unlock held

  -- The loop of `__msan_check_mem_is_initialized` with the rounds left, at the index `i`.
  unfoldable pub check_bytes : ℕ → ℕ → Msan → ℕ → ℕ → Exec (Unit {0})
  check_bytes zero i s addr size = pure tt
  check_bytes (suc rounds) i s addr size =
      let rest = check_bytes rounds (i + 1) s addr size in
      if s.memory (u64 (msan_shadow_ptr addr + i)) == 0
      then rest
      else msan_report_uninit s (u64 (addr + i)) (size - i) >>= λ _. abort

  unfoldable pub msan_check_mem_is_initialized : Msan → ℕ → ℕ → Exec (Unit {0})
  msan_check_mem_is_initialized s addr size =
      if addr == 0 || size == 0 then pure tt else check_bytes size 0 s addr size

  unfoldable pub msan_warning : Exec (Unit {0})
  msan_warning = do
    drt_printf fuel "\n==MSAN WARNING==\n" []
    drt_print_stack_trace fuel (drt_arch_capture_stack_trace machine 1)

  unfoldable pub msan_warning_noreturn : Exec (Unit {0})
  msan_warning_noreturn = msan_warning >>= λ _. abort
