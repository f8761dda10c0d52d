-- ===== src/Common/Printf.antt =====
-- src/common/san_printf.c, `drt_vprintf` and what is built on it.
pub mod Ends
pub mod Rounds
pub mod Pieces
pub mod Conversions
pub mod Texts
use misan.Prelude.{
  ℕ, zero, suc, ◌+◌, ◌-◌, ◌*◌, ◌^◌, Bool, true, false, ◌&&◌, List, [], ◌∷◌, Option, none, some, ltb,
  leb, ◌==◌, if◌then◌else◌, length, u8, u32, u64, String, codes, literal, ◌≡◌, refl, Exec, done,
  spinning, fault, ◌>>=◌, ◌>>◌, pure, abort,
}
use misan.Common.Number.{
  drt_puts, drt_putchar, drt_putn, drt_putsn, fill_digits, pad_loop, put_down,
}

-- What a variable argument list holds: a register, or a pointer to a string.
pub data Arg : Type 0 where
  word : ℕ → Arg
  text : List ℕ → Arg

-- `p++` past the padding flag, and the bytes from there on.
unfoldable pub spec_pad : List ℕ → ℕ × List ℕ
spec_pad [] = (b' ', [])
spec_pad (c ∷ p) = if c == b'0' then (b'0', p) else (b' ', c ∷ p)

abbrev pub is_digit : ℕ → Bool
is_digit c = leb b'0' c && leb c b'9'

-- The loop that reads the width. `int` is taken as unbounded here: the formats of the source have
-- widths of at most two digits.
unfoldable pub spec_width : ℕ → List ℕ → ℕ × List ℕ
spec_width width [] = (width, [])
spec_width width (c ∷ p) =
    let rest = spec_width (width * 10 + (c - b'0')) p in if is_digit c then rest else (width, c ∷ p)

-- One test `if (*p == c) { longness = k; p++; }`.
abbrev pub spec_letter : ℕ → ℕ → ℕ × List ℕ → ℕ × List ℕ
spec_letter c k (longness, []) = (longness, [])
spec_letter c k (longness, b ∷ p) = if b == c then (k, p) else (longness, b ∷ p)

unfoldable pub spec_longness : List ℕ → ℕ × List ℕ
spec_longness p = spec_letter b'z' 3 (spec_letter b'l' 2 (spec_letter b'l' 1 (0, p)))

-- `va_arg` of an integer type, `long`, `long long`, `ptrdiff_t` or `size_t` if `longness` is not 0.
unfoldable pub unsigned_arg : ℕ → Arg → Exec ℕ
unsigned_arg longness (word v) = if longness == 0 then pure (u32 v) else pure (u64 v)
unsigned_arg longness (text s) = fault []

-- An `int` is sign-extended to the 64-bit pattern.
unfoldable pub signed_arg : ℕ → Arg → Exec ℕ
signed_arg longness (word v) =
    if longness == 0
    then (if ltb (u32 v) (2 ^ 31) then pure (u32 v) else pure (u32 v + (2 ^ 64 - 2 ^ 32)))
    else pure (u64 v)
signed_arg longness (text s) = fault []

unfoldable pub string_arg : Arg → Exec (List ℕ)
string_arg (text s) = pure s
string_arg (word v) = if v == 0 then pure (literal "(null)") else fault []

-- `va_arg`: the list must not be used up.
abbrev pub next_arg {ℓ} : {A : Type ℓ} → List Arg → (Arg → List Arg → Exec A) → Exec A
next_arg [] k = fault []
next_arg (a ∷ more) k = k a more

module _ (fuel : ℕ) where
  -- The `switch` of `drt_vprintf` at the byte `c`; the arguments that are left.
  unfoldable pub convert : ℕ → ℕ → ℕ → ℕ → List Arg → Exec (List Arg)
  unfolding drt_putsn drt_puts drt_putchar unsigned_arg signed_arg string_arg
  convert c pad width longness args =
      if c == b'd'
      then next_arg args
          (λ a more. do v ← signed_arg longness a; drt_putsn fuel v 10 width pad; pure more)
      else if c == b'u'
      then next_arg args
          (λ a more. do v ← unsigned_arg longness a; drt_putn fuel v 10 width pad false; pure more)
      else if c == b'x'
      then next_arg args
          (λ a more. do v ← unsigned_arg longness a; drt_putn fuel v 16 width pad false; pure more)
      else if c == b'X'
      then next_arg args
          (λ a more. do v ← unsigned_arg longness a; drt_putn fuel v 16 width pad true; pure more)
      else if c == b'p'
      then next_arg args (λ a more. do
        drt_puts (literal "0x")
        v ← unsigned_arg 3 a
        drt_putn fuel v 16 16 b'0' false
        pure more)
      else if c == b's'
      then next_arg args (λ a more. do s ← string_arg a; drt_puts s; pure more)
      else if c == b'c'
      then next_arg args (λ a more. do v ← signed_arg 0 a; drt_putchar (u8 v); pure more)
      else if c == b'%'
      then drt_putchar b'%' >> pure args
      else drt_putchar b'%' >> drt_putchar c >> pure args

  -- One round of the loop of `drt_vprintf`: `none` at the terminator, else where the next round
  -- starts. A `%` right before the terminator makes the last `p++` step over the terminator.
  unfoldable pub format_step : List ℕ → List Arg → Exec (Option (List ℕ × List Arg))
  unfolding drt_putchar spec_pad spec_width spec_longness convert
  format_step [] args = fault []
  format_step (c ∷ p) args =
      if c == 0
      then pure none
      else if c == b'%'
      then (let (pad, p₁) = spec_pad p in
          let (width, p₂) = spec_width 0 p₁ in
          let (longness, p₃) = spec_longness p₂ in
          elim p₃ [
            | [] ↦ fault []
            | d ∷ p₄ ↦ convert d pad width longness args >>= λ more. pure (some (p₄, more))
          ])
      else drt_putchar c >> pure (some (p, args))

  unfoldable pub format_rounds : ℕ → List ℕ → List Arg → Exec (Unit {0})
  unfolding format_step
  format_rounds zero p args = spinning []
  format_rounds (suc rounds) p args =
      format_step p args
      >>= elim [ none ↦ pure tt | some (p', more) ↦ format_rounds rounds p' more ]

  -- Each round takes a byte of the format, so its length is enough rounds.
  unfoldable pub drt_vprintf : List ℕ → List Arg → Exec (Unit {0})
  drt_vprintf fmt args = format_rounds (length fmt) fmt args

  unfoldable pub drt_printf : String → List Arg → Exec (Unit {0})
  drt_printf fmt args = drt_vprintf (literal fmt) args

  -- What `drt_die` prints before it aborts.
  unfoldable pub die_text : String → List Arg → Exec (Unit {0})
  die_text fmt args = do
    drt_puts (literal "\n[MISAN FATAL] ")
    drt_vprintf (literal fmt) args
    drt_puts (literal "\n")

  unfoldable pub drt_die {ℓ} : {A : Type ℓ} → String → List Arg → Exec A
  drt_die fmt args = die_text fmt args >>= λ _. abort
