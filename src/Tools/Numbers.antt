-- ===== src/Tools/Numbers.antt =====
-- How the tools read numbers and lists out of a text: `Number`, `Number.parseInt(text, 10)`, and
-- `split(",")` with `trim`. The conversion to floating point is not modelled: a value that is too small
-- or too large for it, or has more than 53 bits, is read exactly.
use Prim.Native.Char.{Char, code}
use pinch.Prelude.Bytes.{to_list, of_list}
use pinch.Prelude.{
  ℕ, zero, suc, ◌+◌, ◌-◌, ◌*◌, ◌/◌, ◌^◌, String, Bool, true, false, not, ◌&&◌, ◌||◌, Option, none,
  some, List, [], ◌∷◌, ◌++◌, map, reverse, eqb, leb, length, if◌then◌else◌,
}
use pinch.Identity.{strip_prefix}
use pinch.Manifest.{Amount, dollars, minus_dollars, not_a_number}

abbrev is_between : ℕ → ℕ → ℕ → Bool
is_between a b n = leb a n && leb n b

-- White space and line ends, which `trim` takes off and which a number may stand between.
unfoldable pub is_space : Char → Bool
is_space c =
    let n = code c in
    is_between 9 13 n
    || (eqb n 32
        || (eqb n 160
            || (eqb n 5760
                || (is_between 8192 8202 n
                    || (is_between 8232 8233 n
                        || (eqb n 8239 || (eqb n 8287 || (eqb n 12288 || eqb n 65279))))))))

unfoldable pub trim_start : List Char → List Char
trim_start [] = []
trim_start (c ∷ s) = let rest = trim_start s in if is_space c then rest else c ∷ s

abbrev pub trim : List Char → List Char
trim s = reverse (trim_start (reverse (trim_start s)))

abbrev is_code : ℕ → Char → Bool
is_code n c = eqb (code c) n

-- The text before the first comma, and the others after it.
abbrev pushed : Char → List (List Char) → List (List Char)
pushed c [] = (c ∷ []) ∷ []
pushed c (s ∷ ss) = (c ∷ s) ∷ ss

unfoldable pub split_commas : List Char → List (List Char)
split_commas [] = [] ∷ []
split_commas (c ∷ s) =
    let rest = split_commas s in if is_code b',' c then [] ∷ rest else pushed c rest

-- `text.split(",").map((s) => s.trim())`
unfoldable pub comma_list : String → List String
comma_list text = map (λ s. of_list (trim s)) (split_commas (to_list text))

abbrev digit_value : Char → ℕ
digit_value c =
    if is_between b'0' b'9' (code c)
    then code c - b'0'
    else if is_between b'a' b'z' (code c)
    then code c - b'a' + 10
    else if is_between b'A' b'Z' (code c)
    then code c - b'A' + 10
    else 36

-- The digits of a base at the front, and what follows.
unfoldable pub span_digits : ℕ → List Char → List ℕ × List Char
span_digits base [] = ([], [])
span_digits base (c ∷ s) =
    let (digits, rest) = span_digits base s in
    if leb (suc (digit_value c)) base then (digit_value c ∷ digits, rest) else ([], c ∷ s)

abbrev digits_from : ℕ → ℕ → List ℕ → ℕ
digits_from base n [] = n
digits_from base n (d ∷ ds) = digits_from base (n * base + d) ds

-- A number without its sign: whether it is above zero, and its whole part.
pub data Magnitude : Type 0 where
  infinite : Magnitude
  finite : (positive : Bool) → (whole : ℕ) → Magnitude

-- `mantissa * 10 ^ (up - down)`
abbrev scaled : ℕ → ℕ → ℕ → Magnitude
scaled mantissa up down = finite (not (eqb mantissa 0)) (mantissa * 10 ^ up / 10 ^ down)

abbrev whole_digits : ℕ → List ℕ × List Char → Option Magnitude
whole_digits base ([], rest) = none
whole_digits base (d ∷ ds, []) = some (scaled (digits_from base 0 (d ∷ ds)) 0 0)
whole_digits base (d ∷ ds, c ∷ rest) = none

abbrev with_exponent : ℕ → ℕ → Bool → List ℕ × List Char → Option Magnitude
with_exponent mantissa down negative ([], rest) = none
with_exponent mantissa down negative (d ∷ ds, c ∷ rest) = none
with_exponent mantissa down negative (d ∷ ds, []) =
    let e = digits_from 10 0 (d ∷ ds) in
    some (if negative then scaled mantissa 0 (down + e) else scaled mantissa e down)

abbrev read_sign : List Char → Bool × List Char
read_sign [] = (false, [])
read_sign (c ∷ s) =
    if is_code b'-' c then (true, s) else if is_code b'+' c then (false, s) else (false, c ∷ s)

abbrev read_exponent : ℕ → ℕ → List Char → Option Magnitude
read_exponent mantissa down [] = some (scaled mantissa 0 down)
read_exponent mantissa down (c ∷ s) =
    let (negative, rest) = read_sign s in
    if is_code b'e' c || is_code b'E' c
    then with_exponent mantissa down negative (span_digits 10 rest)
    else none

abbrev after_point : List ℕ → List ℕ × List Char → Option Magnitude
after_point [] ([], rest) = none
after_point (i ∷ is) (fs, rest) = read_exponent (digits_from 10 0 ((i ∷ is) ++ fs)) (length fs) rest
after_point [] (f ∷ fs, rest) = read_exponent (digits_from 10 0 (f ∷ fs)) (length (f ∷ fs)) rest

abbrev at_point : List ℕ → List Char → Option Magnitude
at_point is [] = after_point is ([], [])
at_point is (c ∷ s) =
    if is_code b'.' c then after_point is (span_digits 10 s) else after_point is ([], c ∷ s)

abbrev read_decimal : List Char → Option Magnitude
read_decimal s = elim (strip_prefix (to_list "Infinity") s) [
  | some [] ↦ some infinite
  | _ ↦ let (is, rest) = span_digits 10 s in at_point is rest
]

abbrev radix : Char → ℕ
radix c =
    if is_code b'x' c || is_code b'X' c
    then 16
    else if is_code b'o' c || is_code b'O' c
    then 8
    else if is_code b'b' c || is_code b'B' c
    then 2
    else 0

pub data Number : Type 0 where
  nan : Number
  number : (negative : Bool) → Magnitude → Number

abbrev signed : Bool → Option Magnitude → Number
signed negative none = nan
signed negative (some m) = number negative m

abbrev read_signed : List Char → Number
read_signed s = let (negative, rest) = read_sign s in signed negative (read_decimal rest)

-- A text of white space is zero; after `0x`, `0o` or `0b` stand digits of that base.
abbrev read_trimmed : List Char → Number
read_trimmed [] = number false (finite false 0)
read_trimmed (c ∷ []) = read_signed (c ∷ [])
read_trimmed (c ∷ d ∷ s) =
    if is_code b'0' c && not (eqb (radix d) 0)
    then signed false (whole_digits (radix d) (span_digits (radix d) s))
    else read_signed (c ∷ d ∷ s)

-- `Number(text)`; `Number(undefined)` is `NaN`.
unfoldable pub read_number : Option String → Number
read_number none = nan
read_number (some text) = read_trimmed (trim (to_list text))

abbrev magnitude_whole : Magnitude → ℕ
magnitude_whole infinite = 0
magnitude_whole (finite positive whole) = whole

abbrev is_above_zero : Magnitude → Bool
is_above_zero infinite = true
is_above_zero (finite positive whole) = positive

-- Minus zero is not below zero.
abbrev pub as_amount : Number → Amount
as_amount nan = not_a_number
as_amount (number negative m) =
    if negative && is_above_zero m
    then minus_dollars (magnitude_whole m)
    else dollars (magnitude_whole m)

-- The place that `splice` takes it for: `none` where a test `>= 0` fails or no list is so long.
abbrev pub as_index : Number → Option ℕ
as_index nan = none
as_index (number negative infinite) = none
as_index (number negative (finite positive whole)) =
    if negative && positive then none else some whole

abbrev digits_value : List ℕ × List Char → Option ℕ
digits_value ([], rest) = none
digits_value (d ∷ ds, rest) = some (digits_from 10 0 (d ∷ ds))

abbrev unless_negative : Bool → Option ℕ → Option ℕ
unless_negative true (some zero) = some zero
unless_negative true n = none
unless_negative false n = n

-- `Number.parseInt(text, 10)` where it is a number of at least zero.
unfoldable pub parse_int : Option String → Option ℕ
parse_int none = none
parse_int (some text) =
    let (negative, rest) = read_sign (trim_start (to_list text)) in
    unless_negative negative (digits_value (span_digits 10 rest))
