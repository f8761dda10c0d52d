-- ===== src/Common/Printf/Pieces.antt =====
-- A format as a list of pieces, and the text that each is printed as.
use misan.Prelude.{
  ℕ, ◌+◌, ◌-◌, ◌^◌, ◌≡◌, ◌≢◌, Bool, true, false, List, [], ◌∷◌, ◌++◌, All, ltb, if◌then◌else◌, u8,
  u32, u64,
}
use mathlib.Core.List.{reverse}
use misan.Common.Number.Digits.{AreDigits}
use misan.Common.Printf.{Arg, word, text}
use misan.Common.Printf.Ends.{IsPlain}
use misan.Common.Number.Strings.{IsByte}

-- The letters in front of a conversion.
pub data Size : Type 0 where
  int : Size
  long : Size
  long_long : Size
  size_t : Size

abbrev pub letters : Size → List ℕ
letters int = []
letters long = b'l' ∷ []
letters long_long = b'l' ∷ b'l' ∷ []
letters size_t = b'z' ∷ []

abbrev pub longness : Size → ℕ
longness int = 0
longness long = 1
longness long_long = 2
longness size_t = 3

-- A piece of a format without widths, with its argument.
pub data Piece : Type 0 where
  byte : ℕ → Piece
  percent : Piece
  signed : Size → ℕ → Piece
  unsigned : Size → ℕ → Piece
  hex : Bool → Size → ℕ → Piece
  string : List ℕ → Piece
  char : ℕ → Piece

abbrev pub hex_letter : Bool → ℕ
hex_letter true = b'X'
hex_letter false = b'x'

-- The bytes of a piece, with the rest of the format behind them.
abbrev pub piece_format : Piece → List ℕ → List ℕ
piece_format (byte c) rest = c ∷ rest
piece_format percent rest = b'%' ∷ b'%' ∷ rest
piece_format (signed l v) rest = b'%' ∷ letters l ++ b'd' ∷ rest
piece_format (unsigned l v) rest = b'%' ∷ letters l ++ b'u' ∷ rest
piece_format (hex upper l v) rest = b'%' ∷ letters l ++ hex_letter upper ∷ rest
piece_format (string s) rest = b'%' ∷ b's' ∷ rest
piece_format (char v) rest = b'%' ∷ b'c' ∷ rest

abbrev pub piece_args : Piece → List Arg
piece_args (byte c) = []
piece_args percent = []
piece_args (signed l v) = word v ∷ []
piece_args (unsigned l v) = word v ∷ []
piece_args (hex upper l v) = word v ∷ []
piece_args (string s) = text (s ++ 0 ∷ []) ∷ []
piece_args (char v) = word v ∷ []

-- The register that an unsigned argument of the size leaves, and the 64-bit pattern of a signed one.
abbrev pub unsigned_value : Size → ℕ → ℕ
unsigned_value int v = u32 v
unsigned_value _ v = u64 v

abbrev pub signed_value : Size → ℕ → ℕ
signed_value int v = if ltb (u32 v) (2 ^ 31) then u32 v else u32 v + (2 ^ 64 - 2 ^ 32)
signed_value _ v = u64 v

-- The bytes are the digits of the number in the case, highest first.
abbrev pub IsNumeral : Bool → ℕ → ℕ → List ℕ → Type 0
IsNumeral upper base n o = (buf : List ℕ) × (o ≡ reverse buf) × AreDigits upper base n buf

-- What a piece is printed as.
abbrev pub IsText : Piece → List ℕ → Type 0
IsText (byte c) o = o ≡ c ∷ []
IsText percent o = o ≡ b'%' ∷ []
IsText (signed l v) o =
    (digits : List ℕ) × (o ≡ (if ltb (signed_value l v) (2 ^ 63) then digits else b'-' ∷ digits))
    × IsNumeral false 10
        (if ltb (signed_value l v) (2 ^ 63) then signed_value l v else 2 ^ 64 - signed_value l v)
        digits
IsText (unsigned l v) o = IsNumeral false 10 (unsigned_value l v) o
IsText (hex upper l v) o = IsNumeral upper 16 (unsigned_value l v) o
IsText (string s) o = o ≡ s
IsText (char v) o = o ≡ u8 v ∷ []

-- Bytes that are copied are no directives, a string and a character have no terminator inside, and
-- a signed number is not the least one.
abbrev pub IsFine : Piece → Type 0
IsFine (byte c) = IsPlain c
IsFine percent = Unit
IsFine (signed l v) = signed_value l v ≢ 2 ^ 63
IsFine (unsigned l v) = Unit
IsFine (hex upper l v) = Unit
IsFine (string s) = All IsByte s
IsFine (char v) = u8 v ≢ 0

-- The texts of the pieces, one behind the other.
abbrev pub AreTexts : List Piece → List ℕ → Type 0
AreTexts [] o = o ≡ []
AreTexts (p ∷ ps) o = (x : List ℕ) × (y : List ℕ) × (o ≡ x ++ y) × IsText p x × AreTexts ps y

-- The format with its terminator, and the arguments.
abbrev pub format_of : List Piece → List ℕ
format_of [] = 0 ∷ []
format_of (p ∷ ps) = piece_format p (format_of ps)

abbrev pub args_of : List Piece → List Arg
args_of [] = []
args_of (p ∷ ps) = piece_args p ++ args_of ps
