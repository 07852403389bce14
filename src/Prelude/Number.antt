-- ===== src/Prelude/Number.antt =====
-- `Number(text)` where its value is a non-negative integer, and `none` for any other value and for
-- NaN. The arithmetic is exact: the rounding of texts with more than fifteen digits is left out.
use Prim.Native.Nat.{ℕ, suc, ◌+◌, ◌-◌, ◌*◌, ◌/◌, ◌%◌, ◌^◌}
use Prim.Native.Char.{code}
use Prim.Native.String.{String, [], ◌∷◌}
use mathlib.Core.Path.{◌≡◌, refl}
use mathlib.Core.Bool.{Bool, true, false, ◌||◌, ◌&&◌}
use mathlib.Core.Option.{Option, none, some}
use hola.Prelude.Tests.{if◌then◌else◌, leb, ◌==◌}
use hola.Prelude.Text.{is_empty_text, trim, trim_start, trim_end, is_space, read_digits}

-- The digits at the front of a text: the number so far, how many digits it has, and the rest.
pub record Digits : Type 0 where
  pub value : ℕ
  pub places : ℕ
  pub rest : String

unfoldable pub take_digits : ℕ → ℕ → String → Digits
take_digits n k [] = record { value = n; places = k; rest = [] }
take_digits n k (c ∷ s) =
    let d = code c in
    let more = take_digits (n * 10 + (d - 48)) (suc k) s in
    if leb 48 d && leb d 57 then more else record { value = n; places = k; rest = c ∷ s }

-- `value * 10 ^ (up - down)`, if that is an integer
unfoldable pub scale : ℕ → ℕ → ℕ → Option ℕ
scale value up down =
    if leb down up
    then some (value * 10 ^ (up - down))
    else if value % 10 ^ (down - up) == 0
    then some (value / 10 ^ (down - up))
    else none

-- The digits of an exponent, which end the text: `signed` says that it is negative.
unfoldable pub exponent_digits : ℕ → ℕ → Bool → String → Option ℕ
exponent_digits value fraction signed s =
    let e = take_digits 0 0 s in
    if e.places == 0 || (if is_empty_text e.rest then false else true)
    then none
    else if signed
    then scale value 0 (fraction + e.value)
    else scale value e.value fraction

unfoldable pub exponent_sign : ℕ → ℕ → String → Option ℕ
exponent_sign value fraction [] = none
exponent_sign value fraction (c ∷ s) =
    if code c == b'-'
    then exponent_digits value fraction true s
    else if code c == b'+'
    then exponent_digits value fraction false s
    else exponent_digits value fraction false (c ∷ s)

pub exponent : ℕ → ℕ → String → Option ℕ
exponent value fraction [] = scale value 0 fraction
exponent value fraction (c ∷ s) =
    if code c == b'e' || code c == b'E' then exponent_sign value fraction s else none

-- What follows the digits before the point, of which there were `places`.
unfoldable pub after_whole : ℕ → ℕ → String → Option ℕ
after_whole value places [] = if places == 0 then none else some value
after_whole value places (c ∷ s) =
    if code c == b'.'
    then (let f = take_digits value 0 s in
        if places + f.places == 0 then none else exponent f.value f.places f.rest)
    else if places == 0
    then none
    else exponent value 0 (c ∷ s)

unfoldable pub decimal_literal : String → Option ℕ
decimal_literal s = let w = take_digits 0 0 s in after_whole w.value w.places w.rest

-- A minus sign leaves only zero non-negative.
pub negated : Option ℕ → Option ℕ
negated none = none
negated (some n) = if n == 0 then some 0 else none

pub radix_literal : ℕ → String → Option ℕ
radix_literal radix s = if is_empty_text s then none else read_digits radix 0 s

pub after_zero : String → Option ℕ
after_zero [] = some 0
after_zero (c ∷ s) =
    if code c == b'x' || code c == b'X'
    then radix_literal 16 s
    else if code c == b'o' || code c == b'O'
    then radix_literal 8 s
    else if code c == b'b' || code c == b'B'
    then radix_literal 2 s
    else decimal_literal ("0" ∷ c ∷ s)

unfoldable pub literal : String → Option ℕ
literal [] = some 0
literal (c ∷ s) =
    if code c == b'0'
    then after_zero s
    else if code c == b'+'
    then decimal_literal s
    else if code c == b'-'
    then negated (decimal_literal s)
    else decimal_literal (c ∷ s)

unfoldable pub number_of : String → Option ℕ
number_of s = literal (trim s)

number_tests :
    (number_of " 0x1F " ≡ some 31)
    × (number_of "1.50e1" ≡ some 15)
    × (number_of "-0" ≡ some 0)
    × (number_of "1.5" ≡ none)
    × (number_of "" ≡ some 0)
    × (number_of "1_0" ≡ none)
    × (number_of ".e1" ≡ none)
    × (number_of "12" ≡ some 12)
unfolding number_of literal after_zero radix_literal negated decimal_literal after_whole exponent
    exponent_sign exponent_digits scale take_digits trim trim_start trim_end is_space read_digits
number_tests = (refl, refl, refl, refl, refl, refl, refl, refl)
