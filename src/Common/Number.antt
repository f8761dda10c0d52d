-- ===== src/Common/Number.antt =====
-- src/common/san_printf.c, the output of bytes and numbers. A C string is the list of its bytes
-- with the terminator; a read past the end of the list is a fault.
pub mod Digits
pub mod Padding
pub mod Strings
use misan.Prelude.{
  ℕ, zero, suc, ◌+◌, ◌-◌, ◌/◌, ◌%◌, ◌^◌, Bool, true, false, List, [], ◌∷◌, Option, none, some, ltb,
  ◌==◌, if◌then◌else◌, length, get_elem?, Exec, spinning, fault, after, ◌>>◌, pure,
}

-- `drt_arch_print_string`, which `drt_puts` calls: each byte up to the terminator.
unfoldable pub print_string : List ℕ → Exec (Unit {0})
print_string [] = fault []
print_string (c ∷ s) = if c == 0 then pure tt else after (c ∷ []) (print_string s)

unfoldable pub drt_puts : List ℕ → Exec (Unit {0})
unfolding print_string
drt_puts s = print_string s

unfoldable pub drt_putchar : ℕ → Exec (Unit {0})
unfolding print_string
drt_putchar c = print_string (c ∷ 0 ∷ [])

-- The two tables of digits.
abbrev pub digit_char : Bool → ℕ → ℕ
digit_char true d = if ltb d 10 then b'0' + d else b'A' + d - 10
digit_char false d = if ltb d 10 then b'0' + d else b'a' + d - 10

-- The first loop of `drt_putn`, which fills `buf` from the lowest digit on. `none` means that
-- the rounds were used up.
unfoldable pub fill_digits : ℕ → ℕ → ℕ → Bool → Option (List ℕ)
fill_digits zero n base upper = none
fill_digits (suc rounds) n base upper =
    let rest = fill_digits rounds (n / base) base upper in
    if n / base == 0
    then some (digit_char upper (n % base) ∷ [])
    else (elim rest [ none ↦ none | some buf ↦ some (digit_char upper (n % base) ∷ buf) ])

-- `while (i < width) drt_putchar(pad);`, which changes neither `i` nor `width`.
unfoldable pub pad_loop : ℕ → ℕ → ℕ → ℕ → Exec (Unit {0})
unfolding drt_putchar
pad_loop zero i width pad = spinning []
pad_loop (suc fuel) i width pad = elim (ltb i width) [
  | true ↦ drt_putchar pad >> pad_loop fuel i width pad
  | false ↦ pure tt
]

-- `while (i--) drt_putchar(buf[i]);`.
unfoldable pub put_down : ℕ → List ℕ → Exec (Unit {0})
unfolding drt_putchar
put_down zero buf = pure tt
put_down (suc i) buf = elim (get_elem? buf i) [
  | none ↦ fault []
  | some c ↦ drt_putchar c >> put_down i buf
]

-- The rounds of `fill_digits`: a number of 64 bits has at most 64 digits in any base from 2 on.
abbrev pub max_digits : ℕ
max_digits = 64

module _ (fuel : ℕ) where
  -- `buf` has 32 bytes.
  unfoldable pub drt_putn : ℕ → ℕ → ℕ → ℕ → Bool → Exec (Unit {0})
  drt_putn n base width pad upper = elim (fill_digits max_digits n base upper) [
    | none ↦ spinning []
    | some buf ↦
        if ltb 32 (length buf)
        then fault []
        else pad_loop fuel (length buf) width pad >> put_down (length buf) buf
  ]

  -- A `long long` is its 64-bit pattern; it is negative from 2^63 on, and `-n` overflows at 2^63.
  unfoldable pub drt_putsn : ℕ → ℕ → ℕ → ℕ → Exec (Unit {0})
  unfolding drt_putchar
  drt_putsn n base width pad = if ltb n (2 ^ 63) then drt_putn n base width pad false else do
    drt_putchar b'-'
    if n == 2 ^ 63 then fault [] else drt_putn (2 ^ 64 - n) base (width - 1) pad false
