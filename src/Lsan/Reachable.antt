-- ===== src/Lsan/Reachable.antt =====
-- Which blocks the leak check takes for reachable, and how many leaks it counts.
use misan.Prelude.{
  and_iff, or_iff, ℕ, zero, suc, ◌+◌, ◌*◌, ◌/◌, ◌^◌, true, List, [], ◌∷◌, ◌==◌, ◌≡◌, ◌≤◌, ◌<◌, refl,
  arith, Bool-cases, inl, inr, ◌||◌, ◌&&◌, ==_iff, ◌↔◌, ◌⊎◌, u64, All, Any,
}
use misan.Lsan.{Lsan, Alloc, Root, AllocState, active, freed, is_active}
use misan.Lsan.Check.{
  lsan_is_pointer_inside, scan_words, reached_from_roots, reached_from_allocs, lsan_mark_reachable,
}

-- One of the words of the `size` bytes from `base` on is `target`.
abbrev pub Points : (ℕ → ℕ) → ℕ → ℕ → ℕ → Type 0
Points memory base size target = (w : ℕ) × (w < size / 8) × (memory (base + 8 * w) ≡ target)

-- A block of memory that does not go round the end of the address space.
abbrev pub IsBlock : ℕ → ℕ → Type 0
IsBlock base size = base + size < 2 ^ 64

add_zero : (b : ℕ) → b + 8 * 0 ≡ b
add_zero b = omega arith

add_suc : (b w : ℕ) → b + 8 * suc w ≡ b + 8 + 8 * w
add_suc b w = omega arith

scan_words-suc :
    (memory : ℕ → ℕ) (words base target : ℕ)
    → base + 8 * suc words < 2 ^ 64
    → scan_words memory base (suc words) target
      ≡ (memory base == target || scan_words memory (base + 8) words target)
unfolding scan_words
scan_words-suc memory words base target h = let e : u64 (base + 8) ≡ base + 8 = omega arith in rw e

scan_words_sound :
    (memory : ℕ → ℕ) (words base target : ℕ)
    → base + 8 * words < 2 ^ 64
    → scan_words memory base words target ≡ true
    → (w : ℕ) × (w < words) × (memory (base + 8 * w) ≡ target)
scan_words_sound memory zero base target h e = unfold scan_words in cc
scan_words_sound memory (suc words) base target h e = elim (Bool-cases (memory base == target)) [
  | inl hit ↦ (0, omega arith, rw (add_zero base) ((==_iff (memory base) target).0 hit))
  | inr miss ↦
      let rest : scan_words memory (base + 8) words target ≡ true =
        ground (arith, scan_words-suc memory words base target) in
      let (w, lt, at) = scan_words_sound memory words (base + 8) target (omega arith) rest in
      (suc w, omega arith, rw (add_suc base w) at)
]

scan_words_complete :
    (memory : ℕ → ℕ) (words base target w : ℕ)
    → base + 8 * words < 2 ^ 64
    → w < words
    → memory (base + 8 * w) ≡ target
    → scan_words memory base words target ≡ true
scan_words_complete memory zero base target w h lt e = absurd (omega arith)
scan_words_complete memory (suc words) base target zero h lt e =
    let hit : memory base ≡ target = rw (add_zero base) at e in
    ground (arith, scan_words-suc memory words base target)
scan_words_complete memory (suc words) base target (suc w) h lt e =
    let later : memory (base + 8 + 8 * w) ≡ target = rw (add_suc base w) at e in
    ground (
      arith,
      scan_words-suc memory words base target,
      scan_words_complete memory words (base + 8) target w (omega arith) (omega arith) later,
    )

pub is_active_iff : (s : AllocState) → (is_active s ≡ true) ↔ (s ≡ active)
is_active_iff active = ((λ e. refl), (λ e. refl))
is_active_iff freed = ((λ e. cc), (λ e. cc))

abbrev pub ReachedFromRoot : (ℕ → ℕ) → ℕ → Root → Type 0
ReachedFromRoot memory target r =
    ((r.addr ≤ target) × (target < r.addr + r.size)) ⊎ Points memory r.addr r.size target

abbrev pub ReachedFromAlloc : (ℕ → ℕ) → ℕ → Alloc → Type 0
ReachedFromAlloc memory target a = (a.state ≡ active) × Points memory a.addr a.size target

scan_words-Points_iff :
    (memory : ℕ → ℕ) (base size target : ℕ)
    → IsBlock base size
    → (scan_words memory base (size / 8) target ≡ true) ↔ Points memory base size target
scan_words-Points_iff memory base size target block = (
  scan_words_sound memory (size / 8) base target (omega arith),
  λ d. scan_words_complete memory (size / 8) base target d.0 (omega arith) d.1 d.2,
)

inside_iff :
    (p b size : ℕ)
    → IsBlock b size
    → (lsan_is_pointer_inside p b size ≡ true) ↔ ((b ≤ p) × (p < b + size))
unfolding lsan_is_pointer_inside
inside_iff p b size block = ground arith

root_iff :
    (memory : ℕ → ℕ) (target : ℕ) (r : Root)
    → IsBlock r.addr r.size
    → ((lsan_is_pointer_inside target r.addr r.size || scan_words memory r.addr (r.size / 8) target)
        ≡ true)
      ↔ ReachedFromRoot memory target r
root_iff memory target r block =
    or_iff (lsan_is_pointer_inside target r.addr r.size)
      (scan_words memory r.addr (r.size / 8) target) (inside_iff target r.addr r.size block)
      (scan_words-Points_iff memory r.addr r.size target block)

reached_from_roots_iff :
    (memory : ℕ → ℕ) (target : ℕ) (rs : List Root)
    → All (λ r. IsBlock r.addr r.size) rs
    → (reached_from_roots memory rs target ≡ true) ↔ Any (ReachedFromRoot memory target) rs
unfolding reached_from_roots
reached_from_roots_iff memory target [] blocks = ((λ e. cc), (λ e. absurd e))
reached_from_roots_iff memory target (r ∷ rs) blocks =
    or_iff
      (lsan_is_pointer_inside target r.addr r.size || scan_words memory r.addr (r.size / 8) target)
      (reached_from_roots memory rs target) (root_iff memory target r blocks.0)
      (reached_from_roots_iff memory target rs blocks.1)

reached_from_allocs_iff :
    (memory : ℕ → ℕ) (target : ℕ) (xs : List Alloc)
    → All (λ a. IsBlock a.addr a.size) xs
    → (reached_from_allocs memory xs target ≡ true) ↔ Any (ReachedFromAlloc memory target) xs
unfolding reached_from_allocs
reached_from_allocs_iff memory target [] blocks = ((λ e. cc), (λ e. absurd e))
reached_from_allocs_iff memory target (a ∷ xs) blocks =
    or_iff (is_active a.state && scan_words memory a.addr (a.size / 8) target)
      (reached_from_allocs memory xs target)
      (and_iff (is_active a.state) (scan_words memory a.addr (a.size / 8) target)
        (is_active_iff a.state) (scan_words-Points_iff memory a.addr a.size target blocks.0))
      (reached_from_allocs_iff memory target xs blocks.1)

-- The tables hold blocks that do not go round the end of the address space.
abbrev pub AreBlocks : Lsan → Type 0
AreBlocks s =
    All (λ (r : Root). IsBlock r.addr r.size) s.roots
    × All (λ (a : Alloc). IsBlock a.addr a.size) s.allocs

-- If no block of the tables goes round the end of the address space, a block is taken for
-- reachable exactly when its address lies in a root region, a root region holds its address, or
-- some live block of the table holds its address, itself included.
pub lsan_mark_reachable_iff :
    (memory : ℕ → ℕ) (s : Lsan) (a : Alloc)
    → AreBlocks s
    → (lsan_mark_reachable memory s a ≡ true) ↔ (
        Any (ReachedFromRoot memory a.addr) s.roots ⊎ Any (ReachedFromAlloc memory a.addr) s.allocs)
unfolding lsan_mark_reachable
lsan_mark_reachable_iff memory s a blocks =
    or_iff (reached_from_roots memory s.roots a.addr) (reached_from_allocs memory s.allocs a.addr)
      (reached_from_roots_iff memory a.addr s.roots blocks.0)
      (reached_from_allocs_iff memory a.addr s.allocs blocks.1)
