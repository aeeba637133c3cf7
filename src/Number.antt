-- ===== src/Number.antt =====
-- Numbers as text: `Number(text)`, which `parseID` of static/crdt.js calls on the part behind the
-- colon, with the grammar of the language (white space, signs, radix prefixes, fractions,
-- exponents), and the decimal print of an integer, which `formatID` concatenates. Values are exact:
-- a double is rounded from 2^53 on, and infinite from 2^1024 on.
pub mod RoundTrip
use goclipboard.Common.{
  ℕ, zero, suc, ◌+◌, ◌-◌, ◌*◌, ◌/◌, ◌%◌, ◌^◌, Bool, true, false, ◌&&◌, ◌||◌, Option, none, some,
  List, [], ◌∷◌, ◌++◌, reverse, ltb, leb, ◌==◌, if◌then◌else◌, length,
}
use goclipboard.Text.{Text, ◌===◌, codes}

-- A fraction stands for its value, and the sign is kept beside it.
pub data Number : Type 0 where
  nan infinity : Number
  fraction : Bool → ℕ → ℕ → Number

pub is_white_space : ℕ → Bool
is_white_space c =
    leb 9 c && leb c 13
    || c == 32
    || c == 160
    || c == 0xfeff
    || c == 0x1680
    || leb 0x2000 c && leb c 0x200a
    || c == 0x2028
    || c == 0x2029
    || c == 0x202f
    || c == 0x205f
    || c == 0x3000

pub trim_start : Text → Text
trim_start [] = []
trim_start (c ∷ t) = if is_white_space c then trim_start t else c ∷ t

pub trim : Text → Text
unfolding trim_start is_white_space
trim t = reverse (trim_start (reverse (trim_start t)))

-- The value of a digit, in any radix up to 16.
pub digit_value : ℕ → Option ℕ
digit_value c =
    if leb b'0' c && leb c b'9'
    then some (c - b'0')
    else if leb b'a' c && leb c b'f'
    then some (c - b'a' + 10)
    else if leb b'A' c && leb c b'F'
    then some (c - b'A' + 10)
    else none

pub add_digit : ℕ → ℕ → Option ℕ → Option ℕ
add_digit radix n none = none
add_digit radix n (some d) = if ltb d radix then some (n * radix + d) else none

-- The number that the digits spell behind `n`; `none` where one is no digit of the radix.
pub digits_value : ℕ → Option ℕ → Text → Option ℕ
digits_value radix none t = none
digits_value radix (some n) [] = some n
digits_value radix (some n) (c ∷ t) = digits_value radix (add_digit radix n (digit_value c)) t

pub is_digit : ℕ → Bool
is_digit c = leb b'0' c && leb c b'9'

-- The digits at the head of a text, and the rest.
pub span_digits : Text → Text × Text
span_digits [] = ([], [])
span_digits (c ∷ t) =
    if is_digit c then (let (ds, rest) = span_digits t in (c ∷ ds, rest)) else ([], c ∷ t)

integer : Option ℕ → Number
integer none = nan
integer (some n) = fraction false n 1

radix_number : ℕ → Text → Number
radix_number radix [] = nan
radix_number radix (c ∷ t) = integer (digits_value radix (some 0) (c ∷ t))

scale_up : Bool → ℕ → ℕ → Text → Number
scale_up negative m k [] = nan
scale_up negative m k (c ∷ t) = elim (digits_value 10 (some 0) (c ∷ t)) [
  | none ↦ nan
  | some e ↦ fraction negative (m * 10 ^ e) (10 ^ k)
]

scale_down : Bool → ℕ → ℕ → Text → Number
scale_down negative m k [] = nan
scale_down negative m k (c ∷ t) = elim (digits_value 10 (some 0) (c ∷ t)) [
  | none ↦ nan
  | some e ↦ fraction negative m (10 ^ (k + e))
]

exponent_sign : Bool → ℕ → ℕ → Text → Number
exponent_sign negative m k [] = nan
exponent_sign negative m k (c ∷ t) =
    if c == b'+'
    then scale_up negative m k t
    else if c == b'-'
    then scale_down negative m k t
    else scale_up negative m k (c ∷ t)

exponent : Bool → ℕ → ℕ → Text → Number
exponent negative m k [] = fraction negative m (10 ^ k)
exponent negative m k (c ∷ t) = if c == b'e' || c == b'E' then exponent_sign negative m k t else nan

mantissa : Bool → Text → Text → Text → Number
mantissa negative [] [] t = nan
mantissa negative whole part t = elim (digits_value 10 (some 0) (whole ++ part)) [
  | none ↦ nan
  | some m ↦ exponent negative m (length part) t
]

decimal_point : Bool → Text → Text → Number
decimal_point negative whole [] = mantissa negative whole [] []
decimal_point negative whole (c ∷ t) =
    if c == b'.'
    then (let (part, rest) = span_digits t in mantissa negative whole part rest)
    else mantissa negative whole [] (c ∷ t)

unsigned : Bool → Text → Number
unsigned negative t =
    if t === codes "Infinity"
    then infinity
    else (let (whole, rest) = span_digits t in decimal_point negative whole rest)

signed : Text → Number
signed [] = fraction false 0 1
signed (c ∷ t) =
    if c == b'+'
    then unsigned false t
    else if c == b'-'
    then unsigned true t
    else unsigned false (c ∷ t)

prefixed : Text → Number
prefixed (c ∷ d ∷ t) =
    if c == b'0' && (d == b'x' || d == b'X')
    then radix_number 16 t
    else if c == b'0' && (d == b'o' || d == b'O')
    then radix_number 8 t
    else if c == b'0' && (d == b'b' || d == b'B')
    then radix_number 2 t
    else signed (c ∷ d ∷ t)
prefixed t = signed t

-- `Number(text)`
unfoldable pub number : Text → Number
unfolding trim prefixed signed unsigned decimal_point mantissa exponent exponent_sign scale_up
    scale_down radix_number integer span_digits is_digit digits_value add_digit digit_value ◌===◌
number t = prefixed (trim t)

-- The value, where it is an integer above 0: `Number.isFinite(n)`, `n > 0`, `n === Math.floor(n)`.
unfoldable pub positive_integer : Number → Option ℕ
positive_integer (fraction false n d) = if n % d == 0 && ltb 0 (n / d) then some (n / d) else none
positive_integer _ = none

-- The decimal digits of `n`, with more fuel than digits.
pub decimal_loop : ℕ → ℕ → Text
decimal_loop zero n = []
decimal_loop (suc fuel) n =
    let front = decimal_loop fuel (n / 10) in
    if ltb n 10 then (b'0' + n) ∷ [] else front ++ (b'0' + n % 10) ∷ []

-- `String(n)` of an integer
unfoldable pub decimal : ℕ → Text
unfolding decimal_loop
decimal n = decimal_loop (suc n) n
