-- ===== src/Tsan/Abstract/Full.antt =====
-- What becomes of the accesses to an address that the full table of shadows does not have.
use misan.Prelude.{
  ℕ, Bool, true, Option, none, some, List, [], ◌∷◌, All, ◌≡◌, ◌≢◌, ◌<◌, false, done, arith, refl,
  Option-cases, inl, inr, after-nil,
}
use misan.Common.Platform.{Machine, drt_spin_lock, drt_spin_unlock}
use misan.Tsan.Table.{tsan_shadow_entries}
use misan.Tsan.Runtime.{
  Tsan, Shadow, shadow_holds, tsan_shadow_get, tsan_get_tid, tsan_access, tsan_read, tsan_write,
}
use misan.Tsan.Runtime.Entries.{shadow_get-IsEntry}
use misan.Tsan.Runtime.Races.{checked-none}
use misan.Tsan.Sync.{tsan_mutex_pre_lock, tsan_mutex_pre_unlock}
use misan.Tsan.Calls.{Call, read, write, pre_lock, pre_unlock, perform}
use misan.Tsan.Abstract.{run}

-- Every entry of the table is that of another address.
abbrev pub IsFull : (ℕ → Shadow) → ℕ → Type 0
IsFull table addr =
    (i : ℕ)
    → i < tsan_shadow_entries
    → (shadow_holds table i ≢ none) × (shadow_holds table i ≢ some addr)

-- An access to the address, or a test of a lock there, by a thread that has an id.
abbrev pub IsAccess : (ℕ → Option ℕ) → ℕ → ℕ × Call → Type 0
IsAccess ids addr (self, read a) = (a ≡ addr) × (ids self ≢ none)
IsAccess ids addr (self, write a) = (a ≡ addr) × (ids self ≢ none)
IsAccess ids addr (self, pre_lock a) = (a ≡ addr) × (ids self ≢ none)
IsAccess ids addr (self, pre_unlock a) = (a ≡ addr) × (ids self ≢ none)
IsAccess ids addr (self, _) = ⊥

module _ (fuel : ℕ) (machine : Machine) (s : Tsan) (addr : ℕ) (free : s.locked ≡ false)
    (full : IsFull s.shadow addr) where
  shadow_get-full : tsan_shadow_get s.shadow addr true ≡ (none, s.shadow)
  shadow_get-full = elim (shadow_get-IsEntry s.shadow addr) [
    | inl e ↦ e
    | inr (i, table, e, entry) ↦ elim entry.before [
      | inl held ↦ absurd ((full i entry.inside).1 held)
      | inr (idle, at) ↦ absurd ((full i entry.inside).0 idle)
    ]
  ]

  tsan_access-full :
      (self a : ℕ) (w : Bool)
      → (a ≡ addr) × (s.current_tid self ≢ none)
      → tsan_access fuel machine self s a w ≡ done [] s
  unfolding tsan_access tsan_get_tid drt_spin_lock drt_spin_unlock
  tsan_access-full self a w (here, known) = elim (Option-cases (s.current_tid self)) [
    | inl e ↦ absurd (known e)
    | inr (tid, e) ↦
        ground
          (arith, e, free, here, checked-none fuel machine s tid addr w s.shadow shadow_get-full)
  ]

  perform-full :
      (self : ℕ) (c : Call)
      → IsAccess s.current_tid addr (self, c)
      → perform fuel machine self c s ≡ done [] s
  unfolding perform tsan_read tsan_write tsan_mutex_pre_lock tsan_mutex_pre_unlock
  perform-full self (read a) h = tsan_access-full self a false h
  perform-full self (write a) h = tsan_access-full self a true h
  perform-full self (pre_lock a) h = tsan_access-full self a true h
  perform-full self (pre_unlock a) h = tsan_access-full self a true h
  perform-full self _ h = absurd h

  -- With the lock free and the shadow table full of other addresses, threads that have their ids
  -- access an address, or test a lock there, in any way and number: every call returns, no race
  -- is reported, and the state stays as it is.
  pub run-full :
      (cs : List (ℕ × Call))
      → All (IsAccess s.current_tid addr) cs
      → run fuel machine cs s ≡ done [] s
  unfolding run
  run-full [] h = refl
  run-full ((self, c) ∷ cs) h = rw (perform-full self c h.0, after-nil) (run-full cs h.1)
