-- ===== src/Lsan/Roots.antt =====
-- The root regions: a removal fills the gap with the last entry.
use mathlib.Core.List.{Perm}
use mathlib.Core.List.Perm
use misan.Prelude.{
  ℕ, Bool, true, false, List, [], ◌∷◌, ◌++◌, ◌==◌, ◌≡◌, ◌<◌, refl, arith, Bool-cases, inl, inr,
  ◌||◌, done, ◌>>=◌, length, ==_iff, ap,
}
use misan.Lsan.{
  Lsan, Root, lsan_max_roots, lsan_register_root_region, lsan_unregister_root_region, remove_root,
  last_or, drop_last,
}
use misan.Lsan.Tables.{IsValid}

unfoldable pub has_root : ℕ → List Root → Bool
has_root p [] = false
has_root p (r ∷ rs) = r.addr == p || has_root p rs

-- The last entry moved to the front.
last-drop_last-perm :
    (x : Root) (xs : List Root) → Perm (last_or x xs ∷ drop_last (x ∷ xs)) (x ∷ xs)
last-drop_last-perm x [] = Perm.refl (x ∷ [])
last-drop_last-perm x (y ∷ ys) =
    Perm.trans (Perm.swap x (last_or y ys) (drop_last (y ∷ ys)))
      (Perm.cons x (last-drop_last-perm y ys))

gap-perm : (r : Root) (rs : List Root) → Perm (drop_last (last_or r rs ∷ rs)) rs
gap-perm r [] = Perm.refl []
gap-perm r (x ∷ xs) = last-drop_last-perm x xs

-- Removing a root that is there takes exactly one entry with its address away; the others keep
-- their number and may change their order.
pub remove_root-perm :
    (p : ℕ) (rs : List Root)
    → has_root p rs ≡ true
    → (r : Root) × (r.addr ≡ p) × Perm (r ∷ remove_root p rs) rs
unfolding has_root remove_root
remove_root-perm p [] h = cc
remove_root-perm p (r ∷ rs) h = elim (Bool-cases (r.addr == p)) [
  | inl e ↦ (r, (==_iff r.addr p).0 e, rw e (Perm.cons r (gap-perm r rs)))
  | inr e ↦
      let (q, at, perm) = remove_root-perm p rs (ground arith) in
      (q, at, rw e (Perm.trans (Perm.swap r q (remove_root p rs)) (Perm.cons r perm)))
]

last_or-append : (r x : Root) (xs : List Root) → last_or r (xs ++ x ∷ []) ≡ x
last_or-append r x [] = refl
last_or-append r x (y ∷ ys) = last_or-append y x ys

drop_last-append : (x : Root) (xs : List Root) → drop_last (xs ++ x ∷ []) ≡ xs
drop_last-append x [] = refl
drop_last-append x (y ∷ []) = refl
drop_last-append x (y ∷ z ∷ zs) = ap (λ t. y ∷ t) (drop_last-append x (z ∷ zs))

remove_root-append :
    (p : ℕ) (rs : List Root) (r : Root)
    → has_root p rs ≡ false
    → r.addr ≡ p
    → remove_root p (rs ++ r ∷ []) ≡ rs
unfolding has_root remove_root
remove_root-append p [] r h e = ground arith
remove_root-append p (x ∷ xs) r h e = ground (arith, remove_root-append p xs r)

-- From a valid state with room, registering a root region whose address is not there and
-- unregistering it gives the state back.
pub lsan_unregister-register_root :
    (s : Lsan) (p size size' : ℕ)
    → IsValid s
    → length s.roots < lsan_max_roots
    → has_root p s.roots ≡ false
    → lsan_register_root_region s p size >>= (λ s'. lsan_unregister_root_region s' p size')
      ≡ done [] s
unfolding lsan_register_root_region lsan_unregister_root_region
lsan_unregister-register_root s p size size' v room new =
    ground (arith, remove_root-append p s.roots (record { addr = p; size = size }))
