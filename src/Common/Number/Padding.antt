-- ===== src/Common/Number/Padding.antt =====
-- When `drt_putn` ends: its padding loop runs for ever as soon as it is entered.
use mathlib.Core.List.{reverse}
use native.Mathlib.Decide.{dec_lt}
use misan.Prelude.{
  ℕ, zero, suc, ◌-◌, ◌^◌, ◌≤◌, ◌<◌, ◌≡◌, refl, ◌⊎◌, Bool, List, [], ◌∷◌, some, ◌==◌, if◌then◌else◌,
  length, arith, Exec, done, spinning, inl, inr,
}
use misan.Common.Number.{fill_digits, pad_loop, drt_putn, max_digits}
use misan.Common.Number.Digits.{AreDigits, IsDigits, fill_digits-IsDigits, put_down-reverse}

-- The call is still running when the fuel is used up.
abbrev pub Spins {ℓ} : {A : Type ℓ} → Exec A → Type ℓ
Spins m = (o : List ℕ) × (m ≡ spinning o)

-- The bases that `drt_vprintf` passes.
abbrev pub IsBase : ℕ → Type 0
IsBase base = (base ≡ 10) ⊎ (base ≡ 16)

-- Once it is entered the loop does not end, whatever the fuel.
pad_loop-Spins : (fuel i width pad : ℕ) → i < width → Spins (pad_loop fuel i width pad)
unfolding pad_loop
pad_loop-Spins zero i width pad h = ([], refl)
pad_loop-Spins (suc fuel) i width pad h =
    let (o, run) = pad_loop-Spins fuel i width pad h in
    ((if pad == 0 then o else pad ∷ o), ground (arith, run))

pad_loop-done :
    (fuel i width pad : ℕ) → 0 < fuel → width ≤ i → pad_loop fuel i width pad ≡ done [] tt
unfolding pad_loop
pad_loop-done zero i width pad p h = absurd (omega arith)
pad_loop-done (suc fuel) i width pad p h = ground arith

module _ (fuel base n width pad : ℕ) (upper : Bool) (decimal_or_hex : IsBase base)
    (small : n < 2 ^ 64) where
  -- The loop that fills the buffer ends within its rounds.
  digits :
      (buf : List ℕ) × (fill_digits max_digits n base upper ≡ some buf) × IsDigits upper base n buf
  digits =
      fill_digits-IsDigits base upper (omega arith) (omega arith) max_digits n (omega arith) small

  -- The buffer is large enough.
  length-le : (buf : List ℕ) → IsDigits upper base n buf → length buf ≤ 20
  length-le buf d = elim decimal_or_hex [
    | inl e ↦ d.short 20 (omega arith) (rw e (omega arith))
    | inr e ↦ d.short 20 (omega arith) (rw e (omega arith))
  ]

  -- In base 10 or 16, a 64-bit number with at least `width` digits is printed, whatever positive
  -- fuel is given: the bytes, read backwards, spell it in that base, with digits from the table
  -- of the case and without leading zeros, and the buffer of 32 bytes does not overflow.
  pub drt_putn-AreDigits :
      0 < fuel
      → (width ≤ 1) ⊎ (base ^ (width - 1) ≤ n)
      → (buf : List ℕ) × (drt_putn fuel n base width pad upper ≡ done (reverse buf) tt)
        × AreDigits upper base n buf
  unfolding drt_putn
  drt_putn-AreDigits pos wide =
      let (buf, run, d) = digits in
      (
        buf,
        ground (
          arith,
          run,
          length-le buf d,
          pad_loop-done fuel (length buf) width pad pos (fits buf d),
          put_down-reverse buf d.nonzero,
        ),
        d.spelled,
      )
    where
      fits : (buf : List ℕ) → IsDigits upper base n buf → width ≤ length buf
      fits buf d = elim wide [
        | inl h ↦ omega (arith, d.some_digit)
        | inr h ↦ elim (dec_lt 1 width) [
          | yes p ↦ omega (arith, d.long (width - 1) (omega arith) h)
          | no p ↦ omega (arith, d.some_digit)
        ]
      ]

  -- In base 10 or 16, a 64-bit number with fewer digits than a width above 1 is never printed:
  -- the padding loop does not end.
  pub drt_putn-Spins :
      1 < width → n < base ^ (width - 1) → Spins (drt_putn fuel n base width pad upper)
  unfolding drt_putn
  drt_putn-Spins lt fits =
      let (buf, run, d) = digits in
      let (o, run₂) =
        pad_loop-Spins fuel (length buf) width pad
          (omega (arith, d.short (width - 1) (omega arith) fits)) in
      (o, ground (arith, run, length-le buf d, run₂))
