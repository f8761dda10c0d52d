-- ===== src/Asan/History.antt =====
-- Sequences of `__asan_poison_memory_region` and `__asan_unpoison_memory_region` of
-- src/asan/asan_rtl.c, against a set of poisoned bytes.
use misan.Prelude.{
  ℕ, zero, suc, ◌+◌, ◌*◌, ◌/◌, ◌%◌, ◌^◌, ◌≤◌, ◌<◌, ◌≡◌, Bool, true, false, ◌&&◌, ◌||◌, not, List,
  [], ◌∷◌, All, returns, arith, ap, ◌∙◌,
}
use misan.Common.Bytes.Marks.{covers, shadow_byte}
use misan.Common.Platform.{Machine}
use misan.Common.Mapping.{Mmap, IsMmap, drt_arch_map_shadow_memory}
use misan.Asan.Shadow.{
  Memory, asan_shadow_base, asan_mem_to_shadow, asan_shadow_get, asan_poison_range,
  asan_unpoison_range, asan_poison_memory_region, asan_unpoison_memory_region,
  asan_address_is_poisoned, asan_shadow_poisoned,
}
use misan.Asan.Shadow.Ranges.{app_limit, asan_poison_range_lem, asan_unpoison_range_lem}
use misan.Asan.Access.{Runtime, asan_check_access}
use misan.Asan.Access.Checked.{asan_check_access_iff}
use misan.Asan.Start.{asan_init}
use misan.Asan.Start.Mapped.{asan_init-zero}

-- A call, with the address and the size of the region.
pub data Call : Type 0 where
  poison : ℕ → ℕ → Call
  unpoison : ℕ → ℕ → Call

unfoldable pub perform : Call → Memory → Memory
unfolding asan_poison_memory_region asan_unpoison_memory_region
perform (poison addr size) m = asan_poison_memory_region m addr size
perform (unpoison addr size) m = asan_unpoison_memory_region m addr size

unfoldable pub perform_all : List Call → Memory → Memory
perform_all [] m = m
perform_all (c ∷ cs) m = perform_all cs (perform c m)

-- The specification: whether a byte is poisoned after the calls, byte by byte.
unfoldable pub is_poisoned : List Call → ℕ → Bool → Bool
is_poisoned [] x before = before
is_poisoned (poison addr size ∷ cs) x before = is_poisoned cs x (covers addr size x || before)
is_poisoned (unpoison addr size ∷ cs) x before =
    is_poisoned cs x (not (covers addr size x) && before)

-- The regions consist of whole grains of application memory.
abbrev pub IsWhole : ℕ → ℕ → Type 0
IsWhole addr size = (addr % 8 ≡ 0) × (size % 8 ≡ 0) × (addr + size ≤ app_limit)

abbrev pub IsAligned : Call → Type 0
IsAligned (poison addr size) = IsWhole addr size
IsAligned (unpoison addr size) = IsWhole addr size

module _ (x : ℕ) (low : x < app_limit) where
  poison-byte :
      (m : Memory) (addr size : ℕ) (b : Bool)
      → IsWhole addr size
      → asan_shadow_get m x ≡ shadow_byte b
      → asan_shadow_get (asan_poison_range m addr size asan_shadow_poisoned) x
        ≡ shadow_byte (covers addr size x || b)
  unfolding asan_poison_range
  poison-byte m addr zero b whole old = ground (arith, old)
  poison-byte m addr (suc size) b (aligned, whole, fits) old =
      asan_poison_range_lem m addr (suc size) x fits low 0xFF (omega arith) ∙ ground (arith, old)

  unpoison-byte :
      (m : Memory) (addr size : ℕ) (b : Bool)
      → IsWhole addr size
      → asan_shadow_get m x ≡ shadow_byte b
      → asan_shadow_get (asan_unpoison_range m addr size) x
        ≡ shadow_byte (not (covers addr size x) && b)
  unfolding asan_unpoison_range
  unpoison-byte m addr zero b whole old = ground (arith, old)
  unpoison-byte m addr (suc size) b (aligned, whole, fits) old =
      asan_unpoison_range_lem m addr (suc size) x fits low (omega arith) ∙ ground (arith, old)

  -- The shadow of a byte says whether it is poisoned.
  perform_all-byte :
      (cs : List Call) (m : Memory) (b : Bool)
      → All IsAligned cs
      → asan_shadow_get m x ≡ shadow_byte b
      → asan_shadow_get (perform_all cs m) x ≡ shadow_byte (is_poisoned cs x b)
  unfolding perform_all perform is_poisoned
  perform_all-byte [] m b whole old = old
  perform_all-byte (poison addr size ∷ cs) m b (w, ws) old =
      perform_all-byte cs (asan_poison_range m addr size asan_shadow_poisoned)
        (covers addr size x || b) ws (poison-byte m addr size b w old)
  perform_all-byte (unpoison addr size ∷ cs) m b (w, ws) old =
      perform_all-byte cs (asan_unpoison_range m addr size) (not (covers addr size x) && b) ws
        (unpoison-byte m addr size b w old)

same_grain :
    (m : Memory) (addr : ℕ)
    → addr < 2 ^ 64
    → asan_shadow_get m (addr / 8 * 8) ≡ asan_shadow_get m addr
unfolding asan_shadow_get asan_mem_to_shadow
same_grain m addr low = ap m (omega arith)

asan_init-on : (mmap : Mmap) (r : Runtime) → (asan_init mmap r).initialized ≡ true
unfolding asan_init
asan_init-on mmap r = ground arith

-- If the runtime has not been started and the mapping of the shadow succeeds, then after the
-- start and any sequence of calls that poison and unpoison whole grains below 2^50 - 8, an access
-- of 1 to 2^63 bytes at an address below that returns exactly when the address is not in the set
-- of the poisoned bytes that the calls describe, and `__asan_address_is_poisoned` says whether it
-- is.
pub asan_check_access-is_poisoned :
    (fuel : ℕ) (machine : Machine) (mmap : Mmap) (r : Runtime) (cs : List Call) (addr n : ℕ)
    (is_write : Bool)
    → IsMmap mmap
    → r.initialized ≡ false
    → (drt_arch_map_shadow_memory mmap asan_shadow_base (2 ^ 47) r.memory).0 ≡ true
    → All IsAligned cs
    → addr < app_limit
    → 0 < n
    → n ≤ 2 ^ 63
    → let s = record (asan_init mmap r) { memory = perform_all cs (asan_init mmap r).memory } in
      (returns (asan_check_access fuel machine s addr n is_write) ≡ not (is_poisoned cs addr false))
      × (asan_address_is_poisoned s.memory addr ≡ is_poisoned cs addr false)
unfolding asan_address_is_poisoned
asan_check_access-is_poisoned fuel machine mmap r cs addr n is_write law off ok whole low pos le =
    let s : Runtime = record (asan_init mmap r) {
      memory = perform_all cs (asan_init mmap r).memory;
    } in
    let byte : asan_shadow_get s.memory addr ≡ shadow_byte (is_poisoned cs addr false) =
      perform_all-byte addr low cs (asan_init mmap r).memory false whole
        (asan_init-zero mmap r addr law off ok (omega arith)) in
    (
      ground (
        arith,
        asan_check_access_iff fuel machine s addr n is_write,
        asan_init-on mmap r,
        same_grain s.memory addr,
        byte,
      ),
      ground (arith, byte),
    )
