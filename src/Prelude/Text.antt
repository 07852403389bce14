-- ===== src/Prelude/Text.antt =====
-- Texts: JavaScript's string operations that the program uses, over characters.
use Prim.Native.Nat.{ℕ, zero, suc, ◌+◌, ◌-◌, ◌*◌, ◌/◌, ◌%◌}
use Prim.Native.Char.{Char, code}
use Prim.Native.String.{String, [], ◌∷◌, ◌++◌}
use mathlib.Core.Bool.{Bool, true, false, ◌||◌, ◌&&◌}
use mathlib.Core.Option.{Option, none, some}
use mathlib.Core.List.{List}
use hola.Prelude.Tests.{if◌then◌else◌, leb, ◌==◌}

-- `a + b`, and template literals
abbrev pub cat : String → String → String
cat a b = a ++ b

abbrev pub is_empty_text : String → Bool
is_empty_text [] = true
is_empty_text (_ ∷ _) = false

-- What follows the prefix, if the text starts with it.
unfoldable pub after_prefix : String → String → Option String
after_prefix [] s = some s
after_prefix (c ∷ p) [] = none
after_prefix (c ∷ p) (d ∷ s) =
    let rest = after_prefix p s in if code c == code d then rest else none

-- `s.lastIndexOf(c)`, with the two slices around it
unfoldable pub split_last : ℕ → String → Option (String × String)
split_last c [] = none
split_last c (ch ∷ s) = elim (split_last c s) [
  | some (a, b) ↦ some (ch ∷ a, b)
  | none ↦ if code ch == c then some ([], s) else none
]

-- `s.split(c)`
unfoldable pub split : ℕ → String → List String
split c [] = List.◌∷◌ [] List.[]
split c (ch ∷ s) = elim (split c s) [
  | List.[] ↦ List.[]
  | List.◌∷◌ part parts ↦
      if code ch == c then List.◌∷◌ [] (List.◌∷◌ part parts) else List.◌∷◌ (ch ∷ part) parts
]

-- ECMAScript's white space and line terminators, the Unicode space separators included
unfoldable pub is_space : ℕ → Bool
is_space c =
    (leb 9 c && leb c 13)
    || c == 32
    || c == 160
    || c == 5760
    || (leb 8192 c && leb c 8202)
    || c == 8232
    || c == 8233
    || c == 8239
    || c == 8287
    || c == 12288
    || c == 65279

unfoldable pub trim_start : String → String
trim_start [] = []
trim_start (c ∷ s) = let rest = trim_start s in if is_space (code c) then rest else c ∷ s

unfoldable pub trim_end : String → String
trim_end [] = []
trim_end (c ∷ s) =
    let rest = trim_end s in if is_empty_text rest && is_space (code c) then [] else c ∷ rest

-- `s.trim()`
unfoldable pub trim : String → String
trim s = trim_end (trim_start s)

abbrev digit_char : ℕ → Char
digit_char zero = "0"
digit_char (suc zero) = "1"
digit_char (suc (suc zero)) = "2"
digit_char (suc (suc (suc zero))) = "3"
digit_char (suc (suc (suc (suc zero)))) = "4"
digit_char (suc (suc (suc (suc (suc zero))))) = "5"
digit_char (suc (suc (suc (suc (suc (suc zero)))))) = "6"
digit_char (suc (suc (suc (suc (suc (suc (suc zero))))))) = "7"
digit_char (suc (suc (suc (suc (suc (suc (suc (suc zero)))))))) = "8"
digit_char _ = "9"

-- `String(n)`: each round puts one more digit in front.
unfoldable pub decimal_from : ℕ → ℕ → String → String
decimal_from zero n s = s
decimal_from (suc fuel) n s =
    let t = digit_char (n % 10) ∷ s in
    let rest = decimal_from fuel (n / 10) t in if n / 10 == 0 then t else rest

unfoldable pub decimal : ℕ → String
decimal n = decimal_from (suc n) n []

-- The digits of a number in a radix up to 36, from the most significant on.
abbrev digit_value : ℕ → ℕ
digit_value c =
    if leb 48 c && leb c 57
    then c - 48
    else if leb 97 c && leb c 122
    then c - 87
    else if leb 65 c && leb c 90
    then c - 55
    else 36

unfoldable pub read_digits : ℕ → ℕ → String → Option ℕ
read_digits radix n [] = some n
read_digits radix n (c ∷ s) =
    let d = digit_value (code c) in
    let rest = read_digits radix (n * radix + d) s in if leb radix d then none else rest
