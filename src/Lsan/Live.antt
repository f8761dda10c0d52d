-- ===== src/Lsan/Live.antt =====
-- The allocation table of src/lsan/lsan_rtl.c as the bag of the addresses of the live blocks, which
-- forgets their order and the entries of freed blocks.
use misan.Prelude.{
  ℕ, ◌+◌, ◌≤◌, ◌≡◌, Bool, true, false, List, [], ◌∷◌, ◌==◌, if◌then◌else◌, length, length-append,
  done, arith, refl, ap, ◌∙◌, Bag, bag_of, occurs, multiplicity, put_in, take_out,
  multiplicity-put_in, multiplicity-take_out, Bag-ext, Bool-cases, inl, inr,
}
use misan.Common.Platform.{Machine}
use misan.Lsan.{Lsan, Alloc, is_active, lsan_max_allocs, free_first, ignore_first}
use misan.Lsan.Tables.{
  IsValid, Call, register_alloc, unregister_alloc, register_root, unregister_root, ignore_object,
  disable, enable, perform_all, after_call, perform-after_call, after_call-IsValid, count_active,
  count_active-append, count_active-free_first, length-free_first, length-ignore_first, registered,
  new_entry,
}

-- The addresses of the live blocks.
unfoldable live_addrs : List Alloc → List ℕ
live_addrs [] = []
live_addrs (a ∷ others) =
    let rest = live_addrs others in if is_active a.state then a.addr ∷ rest else rest

pub live : Lsan → Bag
live s = bag_of (live_addrs s.allocs)

-- The specification: the live blocks, and whether tracking is switched off.
abbrev pub View : Type 0
View = Bag × Bool

abbrev pub view : Lsan → View
view s = (live s, s.disabled)

abbrev pub step : Call → View → View
step (register_alloc addr size) (b, off) = (if off then b else put_in addr b, off)
step (unregister_alloc addr) (b, off) = (if off then b else take_out addr b, off)
step (register_root p size) v = v
step (unregister_root p size) v = v
step (ignore_object p) v = v
step disable (b, off) = (b, true)
step enable (b, off) = (b, false)

abbrev pub steps : List Call → View → View
steps [] v = v
steps (c ∷ cs) v = steps cs (step c v)

occurs-live_addrs : (q : ℕ) (xs : List Alloc) → occurs q (live_addrs xs) ≡ count_active q xs
unfolding live_addrs count_active
occurs-live_addrs q [] = refl
occurs-live_addrs q (a ∷ xs) = ground (arith, occurs-live_addrs q xs)

multiplicity-live : (q : ℕ) (s : Lsan) → multiplicity q (live s) ≡ count_active q s.allocs
unfolding live multiplicity
multiplicity-live q s = occurs-live_addrs q s.allocs

count_active-ignore_first :
    (q p : ℕ) (xs : List Alloc) → count_active q (ignore_first p xs) ≡ count_active q xs
unfolding count_active ignore_first
count_active-ignore_first q p [] = refl
count_active-ignore_first q p (a ∷ xs) = ground (arith, count_active-ignore_first q p xs)

live-put_in :
    (m : Machine) (s : Lsan) (addr size : ℕ) (l : Bool)
    → length s.allocs + 1 ≤ lsan_max_allocs
    → live (record s { allocs = registered m s addr size; locked = l }) ≡ put_in addr (live s)
live-put_in m s addr size l room = Bag-ext _ _ (λ q. ground (
  arith,
  multiplicity-live q s,
  multiplicity-live q (record s { allocs = registered m s addr size; locked = l }),
  multiplicity-put_in q addr (live s),
  count_active-append q s.allocs (new_entry m addr size ∷ []),
  one q,
))
  where
    one : (q : ℕ) → count_active q (new_entry m addr size ∷ []) ≡ (if q == addr then 1 else 0)
    one q = unfold count_active in ground arith

live-take_out :
    (s : Lsan) (addr : ℕ) (l : Bool)
    → live (record s { allocs = free_first addr s.allocs; locked = l }) ≡ take_out addr (live s)
live-take_out s addr l = Bag-ext _ _ (λ q. ground (
  arith,
  multiplicity-live q s,
  multiplicity-live q (record s { allocs = free_first addr s.allocs; locked = l }),
  multiplicity-take_out q addr (live s),
  count_active-free_first q addr s.allocs,
))

live-ignored :
    (s : Lsan) (p : ℕ) (l : Bool)
    → live (record s { allocs = ignore_first p s.allocs; locked = l }) ≡ live s
live-ignored s p l = Bag-ext _ _ (λ q. ground (
  arith,
  multiplicity-live q s,
  multiplicity-live q (record s { allocs = ignore_first p s.allocs; locked = l }),
  count_active-ignore_first q p s.allocs,
))

-- A call takes at most one entry of the table.
length-after_call :
    (m : Machine) (c : Call) (s : Lsan) → length (after_call m c s).allocs ≤ length s.allocs + 1
unfolding after_call
length-after_call m (register_alloc addr size) s =
    ground (arith, length-append s.allocs (new_entry m addr size ∷ []))
length-after_call m (unregister_alloc addr) s = ground (arith, length-free_first addr s.allocs)
length-after_call m (register_root p size) s = omega arith
length-after_call m (unregister_root p size) s = omega arith
length-after_call m (ignore_object p) s = omega (arith, length-ignore_first p s.allocs)
length-after_call m disable s = omega arith
length-after_call m enable s = omega arith

view-after_call :
    (m : Machine) (c : Call) (s : Lsan)
    → length s.allocs + 1 ≤ lsan_max_allocs
    → view (after_call m c s) ≡ step c (view s)
unfolding after_call live
view-after_call m (register_alloc addr size) s room = elim (Bool-cases s.disabled) [
  | inl off ↦ simp off refl
  | inr on ↦ simp on (ap (λ b. (b, false)) (live-put_in m s addr size false room))
]
view-after_call m (unregister_alloc addr) s room = elim (Bool-cases s.disabled) [
  | inl off ↦ simp off refl
  | inr on ↦ simp on (ap (λ b. (b, false)) (live-take_out s addr false))
]
view-after_call m (register_root p size) s room = refl
view-after_call m (unregister_root p size) s room = refl
view-after_call m (ignore_object p) s room = ap (λ b. (b, s.disabled)) (live-ignored s p false)
view-after_call m disable s room = refl
view-after_call m enable s room = refl

-- From a valid state, as long as the table has room for an entry a call, every sequence of calls
-- returns, prints nothing, and does to the bag of the addresses of the live blocks, and to
-- whether tracking is off, what the specification does: a registration puts its address in, an
-- unregistration takes it out once, neither while tracking is off, and the other calls leave the
-- bag alone.
pub view-perform_all :
    (m : Machine) (cs : List Call) (s : Lsan)
    → IsValid s
    → length s.allocs + length cs ≤ lsan_max_allocs
    → (s' : Lsan) × (perform_all m cs s ≡ done [] s') × (view s' ≡ steps cs (view s))
unfolding perform_all
view-perform_all m [] s v room = (s, refl, refl)
view-perform_all m (c ∷ cs) s v room =
    let (s', run, same) =
      view-perform_all m cs (after_call m c s) (after_call-IsValid m c s v)
        (omega (arith, length-after_call m c s)) in
    (
      s',
      rw (perform-after_call m c s v.unlocked, run) refl,
      same ∙ ap (steps cs) (view-after_call m c s (omega arith)),
    )
