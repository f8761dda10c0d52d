-- ===== src/Common/Printf/Conversions.antt =====
-- The rounds of `drt_vprintf` at conversions.
use misan.Prelude.{
  ℕ, ◌-◌, ◌^◌, ◌<◌, ◌≡◌, ◌≢◌, Bool, true, false, List, [], ◌∷◌, ◌++◌, ltb, if◌then◌else◌, u8,
  Option, Exec, fault, done, ◌>>=◌, ◌>>◌, pure, some, refl, arith, inl, inr, ap, ◌∙◌, Bool-cases,
}
use mathlib.Core.List.{reverse, append-nil}
use misan.Common.Number.{drt_putn, drt_putsn, drt_putchar}
use misan.Common.Number.Padding.{IsBase, drt_putn-AreDigits}
use misan.Common.Printf.{
  Arg, word, spec_pad, spec_width, spec_longness, signed_arg, convert, format_step,
}
use misan.Common.Printf.Pieces.{
  Size, int, long, long_long, size_t, letters, longness, hex_letter, unsigned_value, signed_value,
  IsNumeral,
}

-- The round from the conversion on, with what was read in front of it.
abbrev converted : ℕ → ℕ → ℕ → ℕ × List ℕ → List Arg → Exec (Option (List ℕ × List Arg))
converted fuel pad width r args = elim r.1 [
  | [] ↦ fault []
  | c ∷ p ↦ convert fuel c pad width r.0 args >>= λ more. pure (some (p, more))
]

-- No byte that the loop reads as part of a width or a size.
abbrev pub IsConversion : ℕ → Type 0
IsConversion d = (b'9' < d) × (d ≢ b'l') × (d ≢ b'z')

-- The letters are read, and nothing else is, in front of a conversion.
module _ (d : ℕ) (rest : List ℕ) (conversion : IsConversion d) where
  spec_pad-letters : (l : Size) → spec_pad (letters l ++ d ∷ rest) ≡ (b' ', letters l ++ d ∷ rest)
  unfolding spec_pad
  spec_pad-letters int = ground arith
  spec_pad-letters long = refl
  spec_pad-letters long_long = refl
  spec_pad-letters size_t = refl

  spec_width-letters :
      (l : Size) → spec_width 0 (letters l ++ d ∷ rest) ≡ (0, letters l ++ d ∷ rest)
  unfolding spec_width
  spec_width-letters int = ground arith
  spec_width-letters long = refl
  spec_width-letters long_long = refl
  spec_width-letters size_t = refl

  spec_longness-letters :
      (l : Size) → spec_longness (letters l ++ d ∷ rest) ≡ (longness l, d ∷ rest)
  unfolding spec_longness
  spec_longness-letters int = ground arith
  spec_longness-letters long = ground arith
  spec_longness-letters long_long = ground arith
  spec_longness-letters size_t = ground arith

  -- A round at a conversion.
  format_step-convert :
      (fuel : ℕ) (l : Size) (args : List Arg)
      → format_step fuel (b'%' ∷ letters l ++ d ∷ rest) args
        ≡ convert fuel d b' ' 0 (longness l) args >>= (λ more. pure (some (rest, more)))
  unfolding format_step
  format_step-convert fuel l args =
      ap (λ r. converted fuel r.0 (spec_width 0 r.1).0 (spec_longness (spec_width 0 r.1).1) args)
        (spec_pad-letters l)
      ∙ ap (λ r. converted fuel b' ' r.0 (spec_longness r.1) args) (spec_width-letters l)
      ∙ ap (λ r. converted fuel b' ' 0 r args) (spec_longness-letters l)

pub unsigned_value-lt : (l : Size) (v : ℕ) → unsigned_value l v < 2 ^ 64
unsigned_value-lt int v = omega arith
unsigned_value-lt long v = omega arith
unsigned_value-lt long_long v = omega arith
unsigned_value-lt size_t v = omega arith

pub signed_value-lt : (l : Size) (v : ℕ) → signed_value l v < 2 ^ 64
signed_value-lt int v = ground arith
signed_value-lt long v = omega arith
signed_value-lt long_long v = omega arith
signed_value-lt size_t v = omega arith

pub hex_letter-IsConversion : (upper : Bool) → IsConversion (hex_letter upper)
hex_letter-IsConversion true = (omega arith, λ e. omega arith, λ e. omega arith)
hex_letter-IsConversion false = (omega arith, λ e. omega arith, λ e. omega arith)

module _ (fuel : ℕ) (pos : 0 < fuel) where
  -- A number is printed without padding.
  pub putn-IsNumeral :
      (base n : ℕ) (upper : Bool)
      → IsBase base
      → n < 2 ^ 64
      → (o : List ℕ) × (drt_putn fuel n base 0 b' ' upper ≡ done o tt) × IsNumeral upper base n o
  putn-IsNumeral base n upper b small =
      let (buf, run, value) =
        drt_putn-AreDigits fuel base n 0 b' ' upper b small pos (inl (omega arith)) in
      (reverse buf, run, (buf, refl, value))

  pub convert-unsigned :
      (l : Size) (v : ℕ) (more : List Arg) (o : List ℕ)
      → drt_putn fuel (unsigned_value l v) 10 0 b' ' false ≡ done o tt
      → convert fuel b'u' b' ' 0 (longness l) (word v ∷ more) ≡ done o more
  unfolding convert
  convert-unsigned int v more o run = rw run (simp append-nil refl)
  convert-unsigned long v more o run = rw run (simp append-nil refl)
  convert-unsigned long_long v more o run = rw run (simp append-nil refl)
  convert-unsigned size_t v more o run = rw run (simp append-nil refl)

  pub convert-hex :
      (upper : Bool) (l : Size) (v : ℕ) (more : List Arg) (o : List ℕ)
      → drt_putn fuel (unsigned_value l v) 16 0 b' ' upper ≡ done o tt
      → convert fuel (hex_letter upper) b' ' 0 (longness l) (word v ∷ more) ≡ done o more
  unfolding convert
  convert-hex true int v more o run = rw run (simp append-nil refl)
  convert-hex true long v more o run = rw run (simp append-nil refl)
  convert-hex true long_long v more o run = rw run (simp append-nil refl)
  convert-hex true size_t v more o run = rw run (simp append-nil refl)
  convert-hex false int v more o run = rw run (simp append-nil refl)
  convert-hex false long v more o run = rw run (simp append-nil refl)
  convert-hex false long_long v more o run = rw run (simp append-nil refl)
  convert-hex false size_t v more o run = rw run (simp append-nil refl)

  -- A signed number that is not the least one is printed.
  pub putsn-IsNumeral :
      (n : ℕ)
      → n < 2 ^ 64
      → n ≢ 2 ^ 63
      → (digits : List ℕ) × (drt_putsn fuel n 10 0 b' '
          ≡ done (if ltb n (2 ^ 63) then digits else b'-' ∷ digits) tt)
        × IsNumeral false 10 (if ltb n (2 ^ 63) then n else 2 ^ 64 - n) digits
  unfolding drt_putsn drt_putchar
  putsn-IsNumeral n small fine = elim (Bool-cases (ltb n (2 ^ 63))) [
    | inl positive ↦
        let (o, run, numeral) = putn-IsNumeral 10 n false (inl refl) small in
        (o, rw positive run, rw positive numeral)
    | inr negative ↦
        let (o, run, numeral) = putn-IsNumeral 10 (2 ^ 64 - n) false (inl refl) (ground arith) in
        (o, ground (arith, run), rw negative numeral)
  ]

  signed_arg-value :
      (l : Size) (v : ℕ) → signed_arg (longness l) (word v) ≡ done [] (signed_value l v)
  unfolding signed_arg
  signed_arg-value int v = ground arith
  signed_arg-value long v = refl
  signed_arg-value long_long v = refl
  signed_arg-value size_t v = refl

  pub convert-signed :
      (l : Size) (v : ℕ) (more : List Arg) (o : List ℕ)
      → drt_putsn fuel (signed_value l v) 10 0 b' ' ≡ done o tt
      → convert fuel b'd' b' ' 0 (longness l) (word v ∷ more) ≡ done o more
  unfolding convert
  convert-signed l v more o run =
      ap (λ (m : Exec ℕ). m >>= λ n. drt_putsn fuel n 10 0 b' ' >> pure more) (signed_arg-value l v)
      ∙ rw run (simp append-nil refl)

  -- A round of the loop at a conversion that prints a text.
  pub round_of :
      (l : Size) (d : ℕ) (rest : List ℕ) (args more : List Arg) (o : List ℕ)
      → IsConversion d
      → convert fuel d b' ' 0 (longness l) args ≡ done o more
      → format_step fuel (b'%' ∷ letters l ++ d ∷ rest) args ≡ done o (some (rest, more))
  round_of l d rest args more o conversion run =
      format_step-convert d rest conversion fuel l args ∙ rw run (simp append-nil refl)

  pub char-round :
      (v : ℕ) (rest : List ℕ) (more : List Arg)
      → u8 v ≢ 0
      → format_step fuel (b'%' ∷ b'c' ∷ rest) (word v ∷ more) ≡ done (u8 v ∷ []) (some (rest, more))
  unfolding format_step convert
  char-round v rest more fine =
      let low : u8 (signed_value int v) ≡ u8 v = ground arith in
      let run : drt_putchar (u8 v) ≡ done (u8 v ∷ []) tt =
        unfold drt_putchar in ground (arith, fine) in
      ap
        (λ (m : Exec ℕ).
          (m >>= λ n. drt_putchar (u8 n) >> pure more) >>= λ more'. pure (some (rest, more')))
        (signed_arg-value int v)
      ∙ rw (low, run) refl
