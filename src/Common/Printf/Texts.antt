-- ===== src/Common/Printf/Texts.antt =====
-- `drt_vprintf` against the description of a format as a list of pieces.
use misan.Prelude.{
  ℕ, zero, suc, ◌^◌, ◌<◌, ◌≡◌, false, List, [], ◌∷◌, ◌++◌, All, length, length-append, ltb,
  if◌then◌else◌, u8, done, some, refl, arith, inl, inr,
}
use mathlib.Core.List.{append-nil}
use misan.Common.Number.{drt_putchar}
use misan.Common.Printf.{Arg, word, string_arg, convert, format_step, format_rounds, drt_vprintf}
use misan.Common.Number.Strings.{drt_puts_lem}
use misan.Common.Printf.Pieces.{
  letters, Piece, byte, percent, signed, unsigned, hex, string, char, hex_letter, piece_format,
  piece_args, unsigned_value, signed_value, IsText, IsFine, AreTexts, format_of, args_of,
}
use misan.Common.Printf.Conversions.{
  putn-IsNumeral, unsigned_value-lt, convert-unsigned, convert-hex, hex_letter-IsConversion,
  signed_value-lt, putsn-IsNumeral, convert-signed, round_of, char-round,
}

-- Each piece has a byte.
length-piece : (p : Piece) (rest : List ℕ) → length rest < length (piece_format p rest)
length-piece (byte c) rest = omega arith
length-piece percent rest = omega arith
length-piece (signed l v) rest = omega (arith, length-append (letters l) (b'd' ∷ rest))
length-piece (unsigned l v) rest = omega (arith, length-append (letters l) (b'u' ∷ rest))
length-piece (hex upper l v) rest =
    omega (arith, length-append (letters l) (hex_letter upper ∷ rest))
length-piece (string s) rest = omega arith
length-piece (char v) rest = omega arith

length-format_of : (ps : List Piece) → length ps < length (format_of ps)
length-format_of [] = omega arith
length-format_of (p ∷ ps) = omega (arith, length-format_of ps, length-piece p (format_of ps))

module _ (fuel : ℕ) (pos : 0 < fuel) where
  -- A round of the loop takes a piece with its arguments, and prints its text.
  format_step-piece :
      (p : Piece) (rest : List ℕ) (more : List Arg)
      → IsFine p
      → (o : List ℕ) × (format_step fuel (piece_format p rest) (piece_args p ++ more)
          ≡ done o (some (rest, more)))
        × IsText p o
  format_step-piece (byte c) rest more plain =
      (c ∷ [], unfold format_step drt_putchar in ground (arith, plain), refl)
  format_step-piece percent rest more fine =
      (b'%' ∷ [], unfold format_step convert drt_putchar in refl, refl)
  format_step-piece (signed l v) rest more fine =
      let (digits, run, numeral) =
        putsn-IsNumeral fuel pos (signed_value l v) (signed_value-lt l v) fine in
      (
        if ltb (signed_value l v) (2 ^ 63) then digits else b'-' ∷ digits,
        round_of fuel pos l b'd' rest (word v ∷ more) more _
            (omega arith, λ e. omega arith, λ e. omega arith)
            (convert-signed fuel pos l v more _ run),
        (digits, refl, numeral),
      )
  format_step-piece (unsigned l v) rest more fine =
      let (o, run, numeral) =
        putn-IsNumeral fuel pos 10 (unsigned_value l v) false (inl refl) (unsigned_value-lt l v) in
      (
        o,
        round_of fuel pos l b'u' rest (word v ∷ more) more o
            (omega arith, λ e. omega arith, λ e. omega arith)
            (convert-unsigned fuel pos l v more o run),
        numeral,
      )
  format_step-piece (hex upper l v) rest more fine =
      let (o, run, numeral) =
        putn-IsNumeral fuel pos 16 (unsigned_value l v) upper (inr refl) (unsigned_value-lt l v) in
      (
        o,
        round_of fuel pos l (hex_letter upper) rest (word v ∷ more) more o
            (hex_letter-IsConversion upper) (convert-hex fuel pos upper l v more o run),
        numeral,
      )
  format_step-piece (string s) rest more fine = (
    s,
    unfold format_step convert string_arg in rw (drt_puts_lem s fine) (simp append-nil refl),
    refl,
  )
  format_step-piece (char v) rest more fine =
      (u8 v ∷ [], char-round fuel pos v rest more fine, refl)

  rounds-AreTexts :
      (ps : List Piece) (rounds : ℕ)
      → All IsFine ps
      → length ps < rounds
      → (o : List ℕ) × (format_rounds fuel rounds (format_of ps) (args_of ps) ≡ done o tt)
        × AreTexts ps o
  unfolding format_rounds
  rounds-AreTexts ps zero fine enough = absurd (omega arith)
  rounds-AreTexts [] (suc rounds) fine enough = ([], unfold format_step in refl, refl)
  rounds-AreTexts (p ∷ ps) (suc rounds) fine enough =
      let (x, step, is_text) = format_step-piece p (format_of ps) (args_of ps) fine.0 in
      let (y, run, are_texts) = rounds-AreTexts ps rounds fine.1 (omega arith) in
      (x ++ y, rw (step, run) refl, (x, y, refl, is_text, are_texts))

  -- A format without widths that consists of bytes which are no directives, `%%`, `%d`, `%u`,
  -- `%x` and `%X` with the sizes none, `l`, `ll` and `z`, `%s` and `%c` is printed to its end,
  -- with any positive fuel, as the texts of its pieces one behind the other: strings as they are
  -- and numbers as numerals of their value at that size, decimal or hexadecimal in the case of
  -- the letter, without leading zeros, with a `-` in front of the absolute value of a negative
  -- one, if no signed number is the least 64-bit one, no character is 0, and strings have one
  -- terminator, at their end.
  pub drt_vprintf-AreTexts :
      (ps : List Piece)
      → All IsFine ps
      → (o : List ℕ) × (drt_vprintf fuel (format_of ps) (args_of ps) ≡ done o tt) × AreTexts ps o
  unfolding drt_vprintf
  drt_vprintf-AreTexts ps fine =
      rounds-AreTexts ps (length (format_of ps)) fine (length-format_of ps)
