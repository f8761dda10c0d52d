-- ===== src/Common/Printf/Ends.antt =====
-- How `drt_vprintf` ends: on formats without directives, and at a `%p`.
use misan.Common.Printf.{
  codes, literal, drt_printf, Arg, word, drt_vprintf, format_rounds, format_step, die_text,
  spec_pad, spec_width, spec_longness, convert, unsigned_arg, drt_die,
}
use mathlib.Core.List.{append-nil}
use misan.Prelude.{
  ℕ, suc, ◌+◌, ◌^◌, false, List, [], ◌∷◌, ◌++◌, ◌≡◌, ◌≢◌, ◌<◌, refl, arith, inr, Exec, done, ◌>>=◌,
  length, ap, u64, All, returns, after, spinning, returns->>=, abort, aborted, fault, length-append,
  String, ◌∙◌, some, sym, after-nil, after-cons,
}
use misan.Common.Number.{drt_putchar}
use misan.Common.Number.Padding.{Spins, drt_putn-Spins}

-- A byte that `drt_vprintf` copies.
abbrev pub IsPlain : ℕ → Type 0
IsPlain c = (c ≢ 0) × (c ≢ b'%')

-- What spins spins whatever would come after it.
pub Spins->>= {ℓ κ} :
    {A : Type ℓ} {B : Type κ} (m : Exec A) (f : A → Exec B) → Spins m → Spins (m >>= f)
Spins->>= (done o a) f (p, e) = cc
Spins->>= (aborted o) f (p, e) = cc
Spins->>= (spinning o) f (p, e) = (o, refl)
Spins->>= (fault o) f (p, e) = cc

pub Spins-after {ℓ} : {A : Type ℓ} (o : List ℕ) (m : Exec A) → Spins m → Spins (after o m)
Spins-after o m (p, e) = (o ++ p, rw e)

pub drt_die-returns {ℓ} :
    (A : Type ℓ) (fuel : ℕ) (fmt : String) (args : List Arg)
    → returns (drt_die fuel {A = A} fmt args) ≡ false
unfolding drt_die
drt_die-returns A fuel fmt args = returns->>= (die_text fuel fmt args) (λ _. abort) (λ _. refl)

module _ (fuel : ℕ) where
  format_step-plain :
      (c : ℕ) (p : List ℕ) (args : List Arg)
      → IsPlain c
      → format_step fuel (c ∷ p) args ≡ done (c ∷ []) (some (p, args))
  unfolding format_step drt_putchar
  format_step-plain c p args plain = ground arith

  format_rounds-plain :
      (s p : List ℕ) (rounds : ℕ) (args : List Arg)
      → All IsPlain s
      → format_rounds fuel (length s + rounds) (s ++ p) args
        ≡ after s (format_rounds fuel rounds p args)
  unfolding format_rounds
  format_rounds-plain [] p rounds args plain =
      let e : 0 + rounds ≡ rounds = omega arith in rw e (sym (after-nil _))
  format_rounds-plain (c ∷ s) p rounds args plain =
      let e : suc (length s) + rounds ≡ suc (length s + rounds) = omega arith in
      rw (e, format_rounds, format_step-plain c (s ++ p) args plain.0)
        (ap (after (c ∷ [])) (format_rounds-plain s p rounds args plain.1) ∙ after-cons c s _)

  -- A format without directives is printed as it stands, up to its end.
  pub drt_vprintf-plain :
      (s : List ℕ) (args : List Arg)
      → All IsPlain s
      → drt_vprintf fuel (s ++ 0 ∷ []) args ≡ done s tt
  unfolding drt_vprintf format_rounds format_step
  drt_vprintf-plain s args plain =
      rw (length-append s (0 ∷ []), format_rounds-plain s (0 ∷ []) 1 args plain, append-nil)

  pointer-Spins :
      (rest : List ℕ) (v : ℕ) (more : List Arg)
      → v < 16 ^ 15
      → Spins (format_step fuel (b'%' ∷ b'p' ∷ rest) (word v ∷ more))
  unfolding format_step spec_pad spec_width spec_longness convert unsigned_arg
  pointer-Spins rest v more low =
      let small : u64 v < 16 ^ 15 = omega arith in
      let (o, run) =
        drt_putn-Spins fuel 16 (u64 v) 16 b'0' false (inr refl) (omega arith) (omega arith) small in
      (b'0' ∷ b'x' ∷ o, rw run)

  -- At a `%p` that follows plain bytes, a pointer of fewer than 16 hexadecimal digits keeps
  -- `drt_vprintf` busy for ever, whatever the rest of the format is.
  pub drt_vprintf-Spins :
      (s rest : List ℕ) (v : ℕ) (more : List Arg)
      → All IsPlain s
      → v < 16 ^ 15
      → Spins (drt_vprintf fuel (s ++ b'%' ∷ b'p' ∷ rest) (word v ∷ more))
  unfolding drt_vprintf format_rounds
  drt_vprintf-Spins s rest v more plain low =
      rw
        (
          length-append s (b'%' ∷ b'p' ∷ rest),
          format_rounds-plain s (b'%' ∷ b'p' ∷ rest) (suc (suc (length rest))) (word v ∷ more)
              plain,
        )
        (Spins-after s _ (
          Spins->>= (format_step fuel (b'%' ∷ b'p' ∷ rest) (word v ∷ more)) _
            (pointer-Spins rest v more low)))

  -- The same of `drt_printf` at a string literal.
  pub drt_printf-plain :
      (fmt : String) (args : List Arg)
      → All IsPlain (codes fmt)
      → drt_printf fuel fmt args ≡ done (codes fmt) tt
  unfolding drt_printf
  drt_printf-plain fmt args plain = drt_vprintf-plain (codes fmt) args plain

  pub drt_printf-Spins :
      (fmt before behind : String) (v : ℕ) (more : List Arg)
      → literal fmt ≡ codes before ++ b'%' ∷ b'p' ∷ literal behind
      → All IsPlain (codes before)
      → v < 16 ^ 15
      → Spins (drt_printf fuel fmt (word v ∷ more))
  unfolding drt_printf
  drt_printf-Spins fmt before behind v more e plain low =
      rw e (drt_vprintf-Spins (codes before) (literal behind) v more plain low)
