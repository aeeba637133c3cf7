-- ===== src/Number/RoundTrip.antt =====
-- `Number` reads a printed integer back.
use goclipboard.Common.{
  ℕ, zero, suc, ◌+◌, ◌-◌, ◌*◌, ◌/◌, ◌%◌, ◌≤◌, ◌<◌, ◌≡◌, refl, ◌≢◌, ap, false, some, [], ◌∷◌, ◌++◌,
  reverse, arith, ltb, All, All-append, Bool-cases, inl, inr, ◌∙◌, sym, append-nil,
}
use mathlib.Core.List.{reverse-cons, reverse-reverse}
use goclipboard.Text.{Text, ◌===◌}
use goclipboard.Number.{
  number, fraction, decimal, decimal_loop, is_digit, digits_value, add_digit, digit_value,
  span_digits, trim, trim_start, is_white_space, mantissa, unsigned, signed, prefixed,
  decimal_point, exponent, positive_integer,
}

abbrev pub IsDigit : ℕ → Type 0
IsDigit c = (b'0' ≤ c) × (c ≤ b'9')

pub decimal_loop-IsDigit : (fuel n : ℕ) → All IsDigit (decimal_loop fuel n)
unfolding decimal_loop
decimal_loop-IsDigit zero n = tt
decimal_loop-IsDigit (suc fuel) n = elim (Bool-cases (ltb n 10)) [
  | inl small ↦ rw small ((omega arith, ground arith), tt)
  | inr large ↦ rw large (
      All-append IsDigit (decimal_loop fuel (n / 10)) _ (decimal_loop-IsDigit fuel (n / 10))
        ((omega arith, omega arith), tt))
]

pub decimal-IsDigit : (n : ℕ) → All IsDigit (decimal n)
unfolding decimal
decimal-IsDigit n = decimal_loop-IsDigit (suc n) n

digit_step : (n c : ℕ) → IsDigit c → add_digit 10 n (digit_value c) ≡ some (n * 10 + (c - b'0'))
unfolding digit_value add_digit
digit_step n c h = ground arith

digits_value-cons :
    (n c : ℕ) (t : Text)
    → IsDigit c
    → digits_value 10 (some n) (c ∷ t) ≡ digits_value 10 (some (n * 10 + (c - b'0'))) t
unfolding digits_value
digits_value-cons n c t h = ap (λ o. digits_value 10 o t) (digit_step n c h)

digits_value-append :
    (n : ℕ) (s t : Text)
    → All IsDigit s
    → digits_value 10 (some n) (s ++ t) ≡ digits_value 10 (digits_value 10 (some n) s) t
unfolding digits_value
digits_value-append n [] t h = refl
digits_value-append n (c ∷ s) t h =
    digits_value-cons n c (s ++ t) h.0
    ∙ digits_value-append (n * 10 + (c - b'0')) s t h.1
    ∙ ap (λ o. digits_value 10 o t) (sym (digits_value-cons n c s h.0))

digits_value-one :
    (n c : ℕ) → IsDigit c → digits_value 10 (some n) (c ∷ []) ≡ some (n * 10 + (c - b'0'))
unfolding digits_value
digits_value-one n c h = digits_value-cons n c [] h

digits_value-decimal_loop :
    (fuel n : ℕ) → n < fuel → digits_value 10 (some 0) (decimal_loop fuel n) ≡ some n
unfolding decimal_loop
digits_value-decimal_loop zero n h = elim h [ ]
digits_value-decimal_loop (suc fuel) n h = elim (Bool-cases (ltb n 10)) [
  | inl small ↦
      rw (small, digits_value-one 0 (b'0' + n) (omega arith, ground arith)) (ap some (omega arith))
  | inr large ↦
      rw
        (
          large,
          digits_value-append 0 (decimal_loop fuel (n / 10)) ((b'0' + n % 10) ∷ [])
              (decimal_loop-IsDigit fuel (n / 10)),
          digits_value-decimal_loop fuel (n / 10) (ground arith),
          digits_value-one (n / 10) (b'0' + n % 10) (omega arith, omega arith),
        )
        (ap some (omega arith))
]

pub digits_value-decimal : (n : ℕ) → digits_value 10 (some 0) (decimal n) ≡ some n
unfolding decimal
digits_value-decimal n = digits_value-decimal_loop (suc n) n (omega arith)

append-ne-nil : (s : Text) (c : ℕ) → s ++ c ∷ [] ≢ []
append-ne-nil [] c h = cc
append-ne-nil (x ∷ s) c h = cc

pub decimal-ne-nil : (n : ℕ) → decimal n ≢ []
unfolding decimal decimal_loop
decimal-ne-nil n = elim (Bool-cases (ltb n 10)) [
  | inl small ↦ rw small (λ h. cc)
  | inr large ↦ rw large (append-ne-nil (decimal_loop n (n / 10)) _)
]

-- How the grammar reads a text of digits.
span_digits-IsDigit : (t : Text) → All IsDigit t → span_digits t ≡ (t, [])
unfolding span_digits is_digit
span_digits-IsDigit [] h = refl
span_digits-IsDigit (c ∷ t) h = ground (arith, span_digits-IsDigit t h.1)

All-reverse : (t : Text) → All IsDigit t → All IsDigit (reverse t)
All-reverse [] h = h
All-reverse (c ∷ t) h =
    rw (reverse-cons c t) (All-append IsDigit (reverse t) (c ∷ []) (All-reverse t h.1) (h.0, tt))

trim_start-IsDigit : (t : Text) → All IsDigit t → trim_start t ≡ t
unfolding trim_start is_white_space
trim_start-IsDigit [] h = refl
trim_start-IsDigit (c ∷ t) h = ground arith

trim-IsDigit : (t : Text) → All IsDigit t → trim t ≡ t
unfolding trim
trim-IsDigit t h =
    rw (trim_start-IsDigit t h, trim_start-IsDigit (reverse t) (All-reverse t h))
      (reverse-reverse t)

signed-IsDigit :
    (c : ℕ) (t : Text) → IsDigit c → All IsDigit t → signed (c ∷ t) ≡ decimal_point false (c ∷ t) []
unfolding signed unsigned ◌===◌
signed-IsDigit c t h hs = ground (arith, span_digits-IsDigit (c ∷ t) (h, hs))

prefixed-IsDigit :
    (c : ℕ) (t : Text)
    → IsDigit c
    → All IsDigit t
    → prefixed (c ∷ t) ≡ decimal_point false (c ∷ t) []
unfolding prefixed
prefixed-IsDigit c [] h hs = signed-IsDigit c [] h hs
prefixed-IsDigit c (d ∷ t) h hs = ground (arith, signed-IsDigit c (d ∷ t) h hs)

decimal_point-IsDigit :
    (t : Text) (n : ℕ)
    → t ≢ []
    → digits_value 10 (some 0) t ≡ some n
    → decimal_point false t [] ≡ fraction false n 1
unfolding decimal_point mantissa exponent
decimal_point-IsDigit [] n ne v = absurd (ne refl)
decimal_point-IsDigit (c ∷ t) n ne v =
    let e : digits_value 10 (some 0) ((c ∷ t) ++ []) ≡ some n = rw (append-nil (c ∷ t)) v in
    ground (arith, e)

number-IsDigit :
    (t : Text) (n : ℕ)
    → All IsDigit t
    → t ≢ []
    → digits_value 10 (some 0) t ≡ some n
    → number t ≡ fraction false n 1
unfolding number
number-IsDigit [] n h ne v = absurd (ne refl)
number-IsDigit (c ∷ t) n h ne v =
    rw (trim-IsDigit (c ∷ t) h, prefixed-IsDigit c t h.0 h.1) (decimal_point-IsDigit (c ∷ t) n ne v)

-- An integer above 0 is read back from its print.
pub positive_integer-decimal : (n : ℕ) → 0 < n → positive_integer (number (decimal n)) ≡ some n
unfolding positive_integer
positive_integer-decimal n h =
    rw
      (number-IsDigit (decimal n) n (decimal-IsDigit n) (decimal-ne-nil n) (digits_value-decimal n))
      (ground arith)
