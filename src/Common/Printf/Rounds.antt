-- ===== src/Common/Printf/Rounds.antt =====
-- The rounds that `drt_vprintf` is given are enough.
use misan.Prelude.{
  ℕ, zero, suc, ◌+◌, ◌-◌, ◌*◌, ◌≤◌, ◌<◌, ◌≡◌, ◌≢◌, ◌⊎◌, inl, inr, List, [], ◌∷◌, Option, none, some,
  length, Any, arith, refl, ◌∙◌, ap, Exec, done, aborted, spinning, fault, after, ◌>>=◌, pure, ◌==◌,
  Bool-cases,
}
use misan.Common.Number.{drt_putchar}
use misan.Common.Printf.{
  Arg, spec_pad, spec_width, spec_letter, spec_longness, convert, format_step, format_rounds,
  drt_vprintf,
}

-- The format has a terminator.
abbrev pub HasEnd : List ℕ → Type 0
HasEnd p = Any (λ c. c ≡ 0) p

spec_pad-le : (p : List ℕ) → length (spec_pad p).1 ≤ length p
unfolding spec_pad
spec_pad-le [] = omega arith
spec_pad-le (c ∷ p) = ground arith

spec_width-le : (p : List ℕ) (width : ℕ) → length (spec_width width p).1 ≤ length p
unfolding spec_width
spec_width-le [] width = omega arith
spec_width-le (c ∷ p) width = ground (arith, spec_width-le p (width * 10 + (c - b'0')))

spec_letter-le :
    (c k longness : ℕ) (p : List ℕ) → length (spec_letter c k (longness, p)).1 ≤ length p
spec_letter-le c k longness [] = omega arith
spec_letter-le c k longness (b ∷ p) = ground arith

spec_longness-le : (p : List ℕ) → length (spec_longness p).1 ≤ length p
unfolding spec_longness
spec_longness-le p =
    let (k₁, p₁) = spec_letter b'l' 1 (0, p) in
    let (k₂, p₂) = spec_letter b'l' 2 (k₁, p₁) in
    omega (
      arith,
      spec_letter-le b'l' 1 0 p,
      spec_letter-le b'l' 2 (spec_letter b'l' 1 (0, p)).0 (spec_letter b'l' 1 (0, p)).1,
      spec_letter-le b'z' 3 (spec_letter b'l' 2 (spec_letter b'l' 1 (0, p))).0
          (spec_letter b'l' 2 (spec_letter b'l' 1 (0, p))).1,
    )

-- What the loop does with the end of a round.
abbrev next : (List ℕ → List Arg → Exec (Unit {0})) → Option (List ℕ × List Arg) → Exec (Unit {0})
next f none = pure tt
next f (some (p', more)) = f p' more

-- Two loops that agree on where the round in front of them can lead.
next-ext :
    (m : Exec (Option (List ℕ × List Arg))) (f g : List ℕ → List Arg → Exec (Unit {0}))
    → ((o p' : List ℕ) (more : List Arg) → m ≡ done o (some (p', more)) → f p' more ≡ g p' more)
    → (m >>= next f) ≡ (m >>= next g)
next-ext (done o none) f g same = refl
next-ext (done o (some (p', more))) f g same = ap (after o) (same o p' more refl)
next-ext (aborted o) f g same = refl
next-ext (spinning o) f g same = refl
next-ext (fault o) f g same = refl

pure-result {ℓ κ} :
    {A : Type ℓ} {B : Type κ} (m : Exec A) (f : A → B) (o : List ℕ) (b : B)
    → m >>= (λ a. pure (f a)) ≡ done o b
    → (a : A) × (b ≡ f a)
pure-result (done o' a) f o b e = (a, cc e)
pure-result (aborted o') f o b e = cc e
pure-result (spinning o') f o b e = cc e
pure-result (fault o') f o b e = cc e

-- Where the next round starts: behind a byte that is copied, or at least two bytes on.
abbrev Advances : List ℕ → List ℕ → Type 0
Advances p p' = ((c : ℕ) × (p ≡ c ∷ p') × (c ≢ 0)) ⊎ (length p' + 2 ≤ length p)

module _ (fuel : ℕ) where
  -- The end of a directive, behind the padding flag, the width and the length.
  converted-le :
      (p : List ℕ) (pad width longness : ℕ) (args : List Arg) (o : List ℕ) (p' : List ℕ)
      (more : List Arg)
      → elim p as (λ _. Exec (Option (List ℕ × List Arg))) [
        | [] ↦ fault []
        | d ∷ r ↦ convert fuel d pad width longness args >>= λ left. pure (some (r, left))
      ]
        ≡ done o (some (p', more))
      → length p' + 1 ≤ length p
  converted-le [] pad width longness args o p' more e = cc e
  converted-le (d ∷ r) pad width longness args o p' more e =
      let (left, is) =
        pure-result (convert fuel d pad width longness args) (λ l. some (r, l)) o (some (p', more))
          e in
      let same : p' ≡ r = cc is in omega (arith, ap length same)

  directive-Advances :
      (c : ℕ) (q : List ℕ) (args : List Arg) (o : List ℕ) (p' : List ℕ) (more : List Arg)
      → c ≡ b'%'
      → format_step fuel (c ∷ q) args ≡ done o (some (p', more))
      → length p' + 2 ≤ length (c ∷ q)
  unfolding format_step
  directive-Advances c q args o p' more is e = omega (
    arith,
    spec_pad-le q,
    spec_width-le (spec_pad q).1 0,
    spec_longness-le (spec_width 0 (spec_pad q).1).1,
    converted-le (spec_longness (spec_width 0 (spec_pad q).1).1).1 (spec_pad q).0
        (spec_width 0 (spec_pad q).1).0 (spec_longness (spec_width 0 (spec_pad q).1).1).0 args o p'
        more (rw is at e),
  )

  format_step-Advances :
      (p : List ℕ) (args : List Arg) (o : List ℕ) (p' : List ℕ) (more : List Arg)
      → format_step fuel p args ≡ done o (some (p', more))
      → Advances p p'
  unfolding format_step drt_putchar
  format_step-Advances [] args o p' more e = cc e
  format_step-Advances (c ∷ q) args o p' more e = elim (Bool-cases (c == b'%')) [
    | inl is ↦ inr (directive-Advances c q args o p' more (ground arith) e)
    | inr plain ↦ elim (Bool-cases (c == 0)) [
      | inl end ↦ absurd (ground (arith, plain, end))
      | inr other ↦ inl (c, ground (arith, plain, other), ground arith)
    ]
  ]

  -- The rounds are enough for what is left of the format.
  abbrev Suffices : ℕ → List ℕ → Type 0
  Suffices rounds p = (length p < rounds) ⊎ ((length p ≤ rounds) × HasEnd p)

  Suffices-Advances :
      (rounds : ℕ) (p p' : List ℕ) → Advances p p' → Suffices (suc rounds) p → Suffices rounds p'
  Suffices-Advances rounds p p' (inr far) h = inl (ground arith)
  Suffices-Advances rounds [] p' (inl (c, e, ne)) h = cc e
  Suffices-Advances rounds (b ∷ q) p' (inl (c, e, ne)) (inl lt) =
      let same : q ≡ p' = cc e in inl (omega (arith, ap length same))
  Suffices-Advances rounds (b ∷ q) p' (inl (c, e, ne)) (inr (le, end)) =
      let same : q ≡ p' = cc e in
      elim end [
        | inl here ↦ absurd (ne (cc e))
        | inr later ↦ inr (omega (arith, ap length same), rw (← same) later)
      ]

  -- One more round changes nothing when the rounds are enough: the rest of the format asks for one
  -- less.
  format_rounds_more :
      (rounds : ℕ) (p : List ℕ) (args : List Arg)
      → Suffices rounds p
      → format_rounds fuel (suc rounds) p args ≡ format_rounds fuel rounds p args
  unfolding format_rounds
  format_rounds_more zero [] args (inl lt) = absurd (omega arith)
  format_rounds_more zero [] args (inr (le, end)) = absurd end
  format_rounds_more zero (c ∷ p) args h = absurd (omega arith)
  format_rounds_more (suc rounds) p args h =
      next-ext (format_step fuel p args) (format_rounds fuel (suc rounds))
        (format_rounds fuel rounds)
        (λ o p' more e.
          format_rounds_more rounds p' more
            (Suffices-Advances rounds p p' (format_step-Advances p args o p' more e) h))

  from_length :
      (k rounds : ℕ) (fmt : List ℕ) (args : List Arg)
      → HasEnd fmt
      → rounds ≡ k + length fmt
      → format_rounds fuel rounds fmt args ≡ format_rounds fuel (length fmt) fmt args
  from_length zero rounds fmt args end e =
      let same : rounds ≡ length fmt = omega (arith, e) in
      ap (λ n. format_rounds fuel n fmt args) same
  from_length (suc k) zero fmt args end e = absurd (omega (arith, e))
  from_length (suc k) (suc rounds) fmt args end e =
      format_rounds_more rounds fmt args (inr (omega arith, end))
      ∙ from_length k rounds fmt args end (omega arith)

  -- Of a format that has a terminator, as many rounds as it has bytes, terminator included, do
  -- all that the loop of `drt_vprintf` does: more rounds change nothing.
  pub drt_vprintf_enough :
      (rounds : ℕ) (fmt : List ℕ) (args : List Arg)
      → HasEnd fmt
      → length fmt ≤ rounds
      → format_rounds fuel rounds fmt args ≡ drt_vprintf fuel fmt args
  unfolding drt_vprintf
  drt_vprintf_enough rounds fmt args end le =
      from_length (rounds - length fmt) rounds fmt args end (omega arith)
