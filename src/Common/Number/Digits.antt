-- ===== src/Common/Number/Digits.antt =====
-- The digits that `drt_putn` writes into its buffer and prints.
use mathlib.Core.List.{reverse, reverse-append}
use native.Mathlib.Nat.{pow-succ', pow-zero, one-le-pow, div-add-mod}
use misan.Prelude.{
  ℕ, zero, suc, ◌+◌, ◌*◌, ◌/◌, ◌^◌, ◌≤◌, ◌<◌, ◌≡◌, ◌≢◌, refl, ap, ◌∙◌, Bool, true, false, List, [],
  ◌∷◌, ◌++◌, some, ◌==◌, length, arith, All, All-get_or, get_or, done, get_elem?, codes,
  get_elem?-eq-get_or, Bool-cases, inl, inr, ==_iff, ◌%◌, sym,
}
use misan.Common.Number.{digit_char, fill_digits, put_down}

-- The sixteen digits in upper and in lower case.
abbrev pub digits_of : Bool → List ℕ
digits_of true = codes "0123456789ABCDEF"
digits_of false = codes "0123456789abcdef"

-- `buf` spells the number in the case, the lowest digit first, without leading zeros.
abbrev pub AreDigits : Bool → ℕ → ℕ → List ℕ → Type 0
AreDigits upper base n [] = ⊥
AreDigits upper base n (c ∷ []) = (n < base) × (get_elem? (digits_of upper) n ≡ some c)
AreDigits upper base n (c ∷ e ∷ more) =
    (d : ℕ) × (q : ℕ) × (d < base)
    × (get_elem? (digits_of upper) d ≡ some c)
    × (n ≡ d + base * q)
    × (0 < q)
    × AreDigits upper base q (e ∷ more)

AreDigits-cons :
    (upper : Bool) (base n d q c : ℕ) (buf : List ℕ)
    → d < base
    → get_elem? (digits_of upper) d ≡ some c
    → n ≡ d + base * q
    → 0 < q
    → AreDigits upper base q buf
    → AreDigits upper base n (c ∷ buf)
AreDigits-cons upper base n d q c [] below at sum pos h = absurd h
AreDigits-cons upper base n d q c (e ∷ more) below at sum pos h = (d, q, below, at, sum, pos, h)

abbrev pub IsNonZero : ℕ → Type 0
IsNonZero c = c ≢ 0

digit_char-digits_of :
    (upper : Bool) (d : ℕ) → d < 16 → get_elem? (digits_of upper) d ≡ some (digit_char upper d)
digit_char-digits_of true zero h = refl
digit_char-digits_of true (suc zero) h = refl
digit_char-digits_of true (suc (suc zero)) h = refl
digit_char-digits_of true (suc (suc (suc zero))) h = refl
digit_char-digits_of true (suc (suc (suc (suc zero)))) h = refl
digit_char-digits_of true (suc (suc (suc (suc (suc zero))))) h = refl
digit_char-digits_of true (suc (suc (suc (suc (suc (suc zero)))))) h = refl
digit_char-digits_of true (suc (suc (suc (suc (suc (suc (suc zero))))))) h = refl
digit_char-digits_of true (suc (suc (suc (suc (suc (suc (suc (suc zero)))))))) h = refl
digit_char-digits_of true (suc (suc (suc (suc (suc (suc (suc (suc (suc zero))))))))) h = refl
digit_char-digits_of true (suc (suc (suc (suc (suc (suc (suc (suc (suc (suc zero)))))))))) h = refl
digit_char-digits_of true (suc (suc (suc (suc (suc (suc (suc (suc (suc (suc (suc zero))))))))))) h =
    refl
digit_char-digits_of true
      (suc (suc (suc (suc (suc (suc (suc (suc (suc (suc (suc (suc zero)))))))))))) h =
    refl
digit_char-digits_of true
      (suc (suc (suc (suc (suc (suc (suc (suc (suc (suc (suc (suc (suc zero))))))))))))) h =
    refl
digit_char-digits_of true
      (suc (suc (suc (suc (suc (suc (suc (suc (suc (suc (suc (suc (suc (suc zero)))))))))))))) h =
    refl
digit_char-digits_of true
      (suc (suc (suc (suc (suc (suc (suc (suc (suc (suc (suc (suc (suc (suc (suc zero)))))))))))))))
      h =
    refl
digit_char-digits_of true
      (suc
        (suc (suc (suc (suc (suc (suc (suc (suc (suc (suc (suc (suc (suc (suc (suc d))))))))))))))))
      h =
    absurd (omega arith)
digit_char-digits_of false zero h = refl
digit_char-digits_of false (suc zero) h = refl
digit_char-digits_of false (suc (suc zero)) h = refl
digit_char-digits_of false (suc (suc (suc zero))) h = refl
digit_char-digits_of false (suc (suc (suc (suc zero)))) h = refl
digit_char-digits_of false (suc (suc (suc (suc (suc zero))))) h = refl
digit_char-digits_of false (suc (suc (suc (suc (suc (suc zero)))))) h = refl
digit_char-digits_of false (suc (suc (suc (suc (suc (suc (suc zero))))))) h = refl
digit_char-digits_of false (suc (suc (suc (suc (suc (suc (suc (suc zero)))))))) h = refl
digit_char-digits_of false (suc (suc (suc (suc (suc (suc (suc (suc (suc zero))))))))) h = refl
digit_char-digits_of false (suc (suc (suc (suc (suc (suc (suc (suc (suc (suc zero)))))))))) h = refl
digit_char-digits_of false (suc (suc (suc (suc (suc (suc (suc (suc (suc (suc (suc zero)))))))))))
      h =
    refl
digit_char-digits_of false
      (suc (suc (suc (suc (suc (suc (suc (suc (suc (suc (suc (suc zero)))))))))))) h =
    refl
digit_char-digits_of false
      (suc (suc (suc (suc (suc (suc (suc (suc (suc (suc (suc (suc (suc zero))))))))))))) h =
    refl
digit_char-digits_of false
      (suc (suc (suc (suc (suc (suc (suc (suc (suc (suc (suc (suc (suc (suc zero)))))))))))))) h =
    refl
digit_char-digits_of false
      (suc (suc (suc (suc (suc (suc (suc (suc (suc (suc (suc (suc (suc (suc (suc zero)))))))))))))))
      h =
    refl
digit_char-digits_of false
      (suc
        (suc (suc (suc (suc (suc (suc (suc (suc (suc (suc (suc (suc (suc (suc (suc d))))))))))))))))
      h =
    absurd (omega arith)

digit_char-IsNonZero : (upper : Bool) (d : ℕ) → IsNonZero (digit_char upper d)
digit_char-IsNonZero true d = ground arith
digit_char-IsNonZero false d = ground arith

-- `buf` holds the digits of `n`.
pub record IsDigits (upper : Bool) (base n : ℕ) (buf : List ℕ) : Type 0 where
  pub spelled : AreDigits upper base n buf
  pub nonzero : All IsNonZero buf
  pub some_digit : 0 < length buf
  pub short : (k : ℕ) → 0 < k → n < base ^ k → length buf ≤ k
  pub long : (k : ℕ) → 0 < k → base ^ k ≤ n → k < length buf

pow_one : (b : ℕ) → b ^ 1 ≡ b
pow_one b = omega (arith, pow-succ' b 0, ap (λ (t : ℕ). b * t) (pow-zero b))

pos_rounds : (r m : ℕ) → m < 2 ^ r → m ≢ 0 → 0 < r
pos_rounds zero m h ne = absurd (ne (omega arith))
pos_rounds (suc r) m h ne = omega arith

module _ (base : ℕ) (upper : Bool) (two_le : 2 ≤ base) (le_sixteen : base ≤ 16) where
  div-lt : (n k : ℕ) → n < base * k → n / base < k
  div-lt n k h = grind arith

  le-div : (n k : ℕ) → base * k ≤ n → k ≤ n / base
  le-div n k h = grind arith

  mul_le : (k : ℕ) → 2 * k ≤ base * k
  mul_le k = grind arith

  zero_of : (n : ℕ) → n < base → n / base ≡ 0
  zero_of n h = omega (arith, div-lt n 1 (omega arith))

  mod-lt : (n : ℕ) → n % base < base
  mod-lt n = grind arith

  last-AreDigits :
      (n : ℕ) → n / base ≡ 0 → AreDigits upper base n (digit_char upper (n % base) ∷ [])
  last-AreDigits n e =
      let same : n % base ≡ n = omega (arith, div-add-mod n base, ap (λ (t : ℕ). base * t) e) in
      let below : n < base = omega (arith, mod-lt n, same) in
      (below, rw same (digit_char-digits_of upper n (omega arith)))

  last_digit : (n : ℕ) → n / base ≡ 0 → IsDigits upper base n (digit_char upper (n % base) ∷ [])
  last_digit n e = record {
    spelled = last-AreDigits n e;
    nonzero = (digit_char-IsNonZero upper (n % base), tt);
    some_digit = omega arith;
    short = λ k p h. omega arith;
    long = elim [
      | zero ↦ λ p h. absurd (omega arith)
      | suc k ↦
          λ p h. omega (arith, one-le-pow k base, le-div n (base ^ k) (rw (← pow-succ' base k) h))
    ];
  }

  more-IsDigits :
      (n : ℕ) (buf : List ℕ)
      → IsDigits upper base (n / base) buf
      → n / base ≢ 0
      → IsDigits upper base n (digit_char upper (n % base) ∷ buf)
  more-IsDigits n buf d ne = record {
    spelled =
        AreDigits-cons upper base n (n % base) (n / base) _ buf (mod-lt n)
          (digit_char-digits_of upper (n % base) (omega (arith, mod-lt n)))
          (omega (arith, div-add-mod n base)) (ground arith) d.spelled;
    nonzero = (digit_char-IsNonZero upper (n % base), d.nonzero);
    some_digit = omega arith;
    short = elim [
      | zero ↦ λ p h. absurd (omega arith)
      | suc zero ↦ λ p h. absurd (ne (zero_of n (rw (pow_one base) at h)))
      | suc (suc k) ↦ λ p h. omega (
        arith,
        d.short (suc k) (omega arith) (div-lt n (base ^ suc k) (rw (← pow-succ' base (suc k)) h)),
      )
    ];
    long = elim [
      | zero ↦ λ p h. absurd (omega arith)
      | suc zero ↦ λ p h. omega (arith, d.some_digit)
      | suc (suc k) ↦ λ p h. omega (
        arith,
        d.long (suc k) (omega arith) (le-div n (base ^ suc k) (rw (← pow-succ' base (suc k)) h)),
      )
    ];
  }

  -- Enough rounds fill the buffer with the digits of the number.
  pub fill_digits-IsDigits :
      (rounds n : ℕ)
      → 0 < rounds
      → n < 2 ^ rounds
      → (buf : List ℕ) × (fill_digits rounds n base upper ≡ some buf) × IsDigits upper base n buf
  unfolding fill_digits
  fill_digits-IsDigits zero n p h = absurd (omega arith)
  fill_digits-IsDigits (suc rounds) n p h =
      let fewer : n / base < 2 ^ rounds =
        div-lt n (2 ^ rounds) (omega (arith, pow-succ' 2 rounds, mul_le (2 ^ rounds))) in
      elim (Bool-cases (n / base == 0)) [
        | inl e ↦ (digit_char upper (n % base) ∷ [], rw e, last_digit n ((==_iff _ 0).0 e))
        | inr e ↦
            let ne : n / base ≢ 0 = ground arith in
            let (buf, run, d) =
              fill_digits-IsDigits rounds (n / base) (pos_rounds rounds _ fewer ne) fewer in
            (digit_char upper (n % base) ∷ buf, rw (e, run), more-IsDigits n buf d ne)
      ]

down : ℕ → List ℕ → List ℕ
down zero buf = []
down (suc i) buf = get_or buf i 0 ∷ down i buf

put_down-down :
    (i : ℕ) (buf : List ℕ)
    → i ≤ length buf
    → All IsNonZero buf
    → put_down i buf ≡ done (down i buf) tt
unfolding put_down down
put_down-down zero buf h a = refl
put_down-down (suc i) buf h a = ground (
  arith,
  get_elem?-eq-get_or buf i 0,
  All-get_or IsNonZero buf i 0 a,
  put_down-down i buf (omega arith) a,
)

down-cons : (i c : ℕ) (cs : List ℕ) → down (suc i) (c ∷ cs) ≡ down i cs ++ c ∷ []
unfolding down
down-cons zero c cs = refl
down-cons (suc i) c cs = ap (λ t. get_or cs i 0 ∷ t) (down-cons i c cs)

down-length : (buf : List ℕ) → down (length buf) buf ≡ reverse buf
unfolding down
down-length [] = refl
down-length (c ∷ cs) =
    rw (down-cons (length cs) c cs, down-length cs) (sym (reverse-append (c ∷ []) cs))

-- The last loop prints the buffer from its end.
pub put_down-reverse :
    (buf : List ℕ) → All IsNonZero buf → put_down (length buf) buf ≡ done (reverse buf) tt
put_down-reverse buf a =
    put_down-down (length buf) buf (omega arith) a ∙ ap (λ t. done t tt) (down-length buf)
