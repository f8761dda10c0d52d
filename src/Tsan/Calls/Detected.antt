-- ===== src/Tsan/Calls/Detected.antt =====
-- A second thread that has not synchronised with the first.
use misan.Prelude.{
  ℕ, ◌+◌, ◌≡◌, ◌≢◌, ◌<◌, Bool, true, false, Option, none, some, List, [], length, update, done,
  ◌>>=◌, arith, refl, ◌∙◌, sym, ap, returns, returns-stopped, after-nil,
}
use misan.Common.Platform.{Machine}
use misan.Tsan.Table.{tsan_shadow_entries}
use misan.Tsan.Table.Room.{taken-empty}
use misan.Tsan.Runtime.{
  Tsan, Shadow, clock_of, shadow_holds, record_access, start_thread, tsan_get_tid, checked_access,
  tsan_access, tsan_init, tsan_write,
}
use misan.Tsan.Runtime.Entries.{shadow_get-room}
use misan.Tsan.Runtime.Races.{checked_access-contended}
use misan.Tsan.Sync.{tsan_mutex_pre_lock}
use misan.Tsan.Calls.{Call, perform_all}
use misan.Tsan.Calls.Alone.{IsAlone, checked_access-records, tsan_access-records}
use misan.Tsan.Calls.First.{IsFirst}
use misan.Tsan.Calls.First.Sequences.{perform_all-IsFirst}

-- The tables as the program starts.
pub record IsFresh (s : Tsan) : Type 0 where
  pub free : s.locked ≡ false
  pub no_threads : s.thread_count ≡ 0
  pub no_ids : (self : ℕ) → s.current_tid self ≡ none
  pub no_entries : (i : ℕ) → ((s.shadow i).tid ≡ 0) × ((s.shadow i).active ≡ false)
  pub no_ticks : clock_of s 0 0 ≡ 0
  pub no_releases : (i : ℕ) → ((s.mutexes i).vc 1 ≡ 0) × ((s.mutexes i).vc 2 ≡ 0)

tsan_init-IsFirst :
    (fuel : ℕ) (machine : Machine) (self : ℕ) (s : Tsan)
    → IsFresh s
    → (s' : Tsan) × (tsan_init fuel machine self s ≡ done [] s') × IsFirst self 0 s'
unfolding tsan_init tsan_get_tid start_thread update
tsan_init-IsFirst fuel machine self s v = (
  start_thread self s,
  ground (arith, v, v.no_ids self),
  record {
    unlocked = v.free;
    known = ground (arith, v);
    counted = omega (arith, v.no_threads);
    strangers = λ other ne. ground (arith, v.no_ids other);
    tids = λ i. omega (arith, v.no_entries i);
    zeroth = ground (arith, v);
    own_pos = ground (arith, v);
    own_le = ground (arith, v);
    unmet = ground (arith, v);
    mutexes = λ i. (omega (arith, v.no_releases i), (v.no_releases i).1);
    room =
        let empty =
          taken-empty tsan_shadow_entries (shadow_holds s.shadow)
            (λ j. ground (arith, v.no_entries j)) in
        omega (arith, empty);
  },
)

-- The state with the second thread started.
module _ (fuel : ℕ) (machine : Machine) (p q k : ℕ) (apart : p ≢ q) (few : k < 65535) (s : Tsan)
    (v : IsFirst p k s) where
  both : Tsan
  both = start_thread q s

  tsan_init-both : tsan_init fuel machine q s ≡ done [] both
  unfolding both tsan_init tsan_get_tid
  tsan_init-both = ground (arith, v, v.strangers q)

  both-IsAlone : IsAlone p 1 both
  unfolding both start_thread update
  both-IsAlone = record {
    unlocked = v.unlocked;
    known = ground (arith, v);
    quiet = λ i. ground (arith, v, v.tids i);
  }

  has_id : (X : Tsan) → X.current_tid q ≡ some 2 → tsan_get_tid fuel machine q X ≡ done [] (2, X)
  unfolding tsan_get_tid
  has_id X id = ground (arith, id)

  -- What `tsan_access` of the second thread does once the first has made its access.
  second_access :
      (X : Tsan) (addr : ℕ) (w : Bool)
      → X.current_tid q ≡ some 2
      → X.locked ≡ false
      → returns (checked_access fuel machine X 2 addr w) ≡ false
      → returns (tsan_access fuel machine q X addr w) ≡ false
  unfolding tsan_access
  second_access X addr w id free stopped =
      rw (has_id X id) (
        simp (free, after-nil) (returns-stopped (checked_access fuel machine X 2 addr w) _ stopped))

  contended :
      (addr : ℕ) (w : Bool)
      → (s' : Tsan) × (tsan_access fuel machine p both addr w ≡ done [] s')
        × (returns (tsan_access fuel machine q s' addr true) ≡ false)
  unfolding both start_thread record_access update
  contended addr w =
      let (i, table, e, entry) = shadow_get-room both.shadow addr (omega (arith, v.room)) in
      let X : Tsan = record_access (record both { shadow = table }) i 1 w in
      (
        X,
        tsan_access-records fuel machine p 1 both addr i table w both-IsAlone e entry,
        second_access X addr true (ground (arith, v)) v.unlocked (
            checked_access-contended fuel machine both 1 2 addr w (λ o. omega arith)
              (ground (arith, v.own_le)) (ground (arith, v.own_pos)) (ground (arith, v.unmet)) X
              (λ o. cc (sym (ap (λ (r : Option ℕ × (ℕ → Shadow)). r.0) e) ∙ o))
              (checked_access-records fuel machine p 1 both addr i table w both-IsAlone e entry)),
      )

-- From the tables as they are before any call on: if one thread starts, makes fewer than 65535
-- calls, each a function entry or exit, a read or write of 1 to 16 bytes, or a call of a mutex
-- handler, then another thread starts and the first accesses an address, these calls all return,
-- and of the second thread neither a write to that address nor an attempt to take a mutex there
-- returns.
pub tsan_write_detected :
    (fuel : ℕ) (machine : Machine) (p q : ℕ) (cs : List Call) (s : Tsan) (addr : ℕ) (w : Bool)
    → IsFresh s
    → p ≢ q
    → length cs < 65535
    → (s' : Tsan) × (tsan_init fuel machine p s
          >>= perform_all fuel machine p cs
          >>= tsan_init fuel machine q
          >>= (λ t. tsan_access fuel machine p t addr w)
        ≡ done [] s')
      × (returns (tsan_write fuel machine q s' addr) ≡ false)
      × (returns (tsan_mutex_pre_lock fuel machine q s' addr) ≡ false)
unfolding tsan_write tsan_mutex_pre_lock
tsan_write_detected fuel machine p q cs s addr w v apart few =
    let (s₁, run₁, v₁) = tsan_init-IsFirst fuel machine p s v in
    let (s₂, run₂, v₂) = perform_all-IsFirst fuel machine p 0 cs s₁ (omega arith) v₁ in
    let few₂ : 0 + length cs < 65535 = omega arith in
    let run₃ = tsan_init-both fuel machine p q (0 + length cs) apart few₂ s₂ v₂ in
    let (s₄, run₄, stopped) = contended fuel machine p q (0 + length cs) apart few₂ s₂ v₂ addr w in
    (s₄, rw (run₁, run₂, run₃, run₄) refl, stopped, stopped)
