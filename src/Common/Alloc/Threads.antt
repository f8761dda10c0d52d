-- ===== src/Common/Alloc/Threads.antt =====
-- `drt_internal_alloc` between any number of threads, an atomic access of `drt_bump_used` at a time.
use misan.Prelude.{
  ℕ, ◌+◌, ◌*◌, ◌/◌, ◌%◌, ◌^◌, ◌≤◌, ◌<◌, ◌-◌, ◌≡◌, inl, inr, List, [], ◌∷◌, ltb, ◌==◌, if◌then◌else◌,
  u64, sub64, bit_and, bit_not, bit_and-not_seven, update, update_all, entry_all, ◌∙◌, refl, arith,
  Bool-cases,
}
use misan.Common.Alloc.{pool_size, rounded_end}

-- Where a thread stands: between two calls, before the load of the round, before its
-- compare-exchange with the value that it loaded, or dead since the pool was full.
pub data Place : Type 0 where
  outside : Place
  loading : ℕ → Place
  exchanging : ℕ → ℕ → Place
  dead : Place

-- A block is its offset and its size.
pub record Pool : Type 0 where
  pub used : ℕ
  pub blocks : List (ℕ × ℕ)
  pub place : ℕ → Place

unfoldable pub move_from : Place → ℕ → Pool → Pool
move_from outside i s = s
move_from (loading size) i s = record s {
  place =
      update s.place i
        (if ltb pool_size (rounded_end s.used size) then dead else exchanging s.used size);
}
move_from (exchanging old size) i s =
    if s.used == old
    then record {
      used = rounded_end old size;
      blocks = (sub64 (rounded_end old size) size, size) ∷ s.blocks;
      place = update s.place i outside;
    }
    else record s { place = update s.place i (loading size) }
move_from dead i s = s

unfoldable pub move : ℕ → Pool → Pool
unfolding move_from
move i s = move_from (s.place i) i s

-- The threads ask for sizes below `limit`.
pub data Step (limit : ℕ) (s : Pool) : Pool → Type 0 where
  call :
      (i size : ℕ)
      → s.place i ≡ outside
      → size < limit
      → Step limit s (record s { place = update s.place i (loading size) })
  go : (i : ℕ) → Step limit s (move i s)

pub data Reach (limit : ℕ) : Pool → Type 0 where
  start : Reach limit (record { used = 0; blocks = []; place = λ i. outside })
  later : {s t : Pool} → Reach limit s → Step limit s t → Reach limit t

-- The blocks lie one behind the other below `top`, each aligned to 8 bytes.
abbrev pub AreApart : ℕ → List (ℕ × ℕ) → Type 0
AreApart top [] = Unit
AreApart top ((block, size) ∷ more) = (block % 8 ≡ 0) × (block + size ≤ top) × AreApart block more

-- What a thread holds in its registers.
abbrev pub IsFit : Place → Type 0
IsFit outside = Unit
IsFit (loading size) = size < 2 ^ 64 - 2 ^ 18
IsFit (exchanging old size) = (size < 2 ^ 64 - 2 ^ 18) × (rounded_end old size ≤ pool_size)
IsFit dead = Unit

pub record IsValid (s : Pool) : Type 0 where
  pub within : s.used ≤ pool_size
  pub apart : AreApart s.used s.blocks
  pub fit : (i : ℕ) → IsFit (s.place i)

AreApart-mono : (a b : ℕ) (xs : List (ℕ × ℕ)) → a ≤ b → AreApart a xs → AreApart b xs
AreApart-mono a b [] h v = tt
AreApart-mono a b ((block, size) ∷ more) h v = (v.0, omega (arith, v.1), v.2)

rounded_end-block :
    (old size : ℕ)
    → old ≤ pool_size
    → size < 2 ^ 64 - 2 ^ 18
    → rounded_end old size ≤ pool_size
    → (block : ℕ) × (sub64 (rounded_end old size) size ≡ block)
      × (block % 8 ≡ 0)
      × (old ≤ block)
      × (block + size ≡ rounded_end old size)
unfolding rounded_end
rounded_end-block old size within small fits =
    let mask : bit_and (u64 (old + 7)) (bit_not 7) ≡ (old + 7) / 8 * 8 =
      bit_and-not_seven (u64 (old + 7)) (omega arith) ∙ omega arith in
    ((old + 7) / 8 * 8, omega (arith, mask), omega arith, omega arith, omega (arith, mask))

loaded-IsFit :
    (used size : ℕ)
    → size < 2 ^ 64 - 2 ^ 18
    → IsFit (if ltb pool_size (rounded_end used size) then dead else exchanging used size)
loaded-IsFit used size small = elim (Bool-cases (ltb pool_size (rounded_end used size))) [
  | inl full ↦ rw full tt
  | inr room ↦ rw room (small, ground arith)
]

-- The exchange that succeeds hands a block out.
hand_out-IsValid :
    (old size i : ℕ) (s : Pool)
    → s.place i ≡ exchanging old size
    → s.used ≡ old
    → IsValid s
    → IsValid (record {
      used = rounded_end old size;
      blocks = (sub64 (rounded_end old size) size, size) ∷ s.blocks;
      place = update s.place i outside;
    })
hand_out-IsValid old size i s at same v =
    let (small, room) = entry_all IsFit s.place i (exchanging old size) at v.fit in
    let (block, is_block, aligned, behind, ends) =
      rounded_end-block old size (omega (arith, v.within)) small room in
    record {
      within = room;
      apart =
          rw is_block
            (aligned, omega arith, AreApart-mono s.used block s.blocks (omega arith) v.apart);
      fit = update_all IsFit s.place i outside v.fit tt;
    }

move_from-IsValid :
    (p : Place) (i : ℕ) (s : Pool) → s.place i ≡ p → IsValid s → IsValid (move_from p i s)
unfolding move_from
move_from-IsValid outside i s e v = v
move_from-IsValid (loading size) i s e v = record {
  within = v.within;
  apart = v.apart;
  fit =
      update_all IsFit s.place i _ v.fit
        (loaded-IsFit s.used size (entry_all IsFit s.place i (loading size) e v.fit));
}
move_from-IsValid (exchanging old size) i s e v = elim (Bool-cases (s.used == old)) [
  | inl same ↦ rw same (hand_out-IsValid old size i s e (ground arith) v)
  | inr changed ↦ rw changed (record {
    within = v.within;
    apart = v.apart;
    fit =
        update_all IsFit s.place i (loading size) v.fit
          (entry_all IsFit s.place i (exchanging old size) e v.fit).0;
  })
]
move_from-IsValid dead i s e v = v

module _ (limit : ℕ) (no_wrap : limit ≤ 2 ^ 64 - 2 ^ 18) where
  Step-IsValid : {s t : Pool} → Step limit s t → IsValid s → IsValid t
  unfolding move
  Step-IsValid {s} (call i size at small) v = record {
    within = v.within;
    apart = v.apart;
    fit = update_all IsFit s.place i (loading size) v.fit (omega arith);
  }
  Step-IsValid {s} (go i) v = move_from-IsValid (s.place i) i s refl v

  -- However the threads' loads and exchanges are interleaved, if they ask for sizes below 2^64 -
  -- 2^18 only, in every reachable state the blocks that the allocator handed out lie one behind
  -- the other inside the pool, each aligned to 8 bytes.
  pub Reach-IsValid : {s : Pool} → Reach limit s → IsValid s
  Reach-IsValid start = record { within = omega arith; apart = tt; fit = λ i. tt }
  Reach-IsValid (later r step) = Step-IsValid step (Reach-IsValid r)
