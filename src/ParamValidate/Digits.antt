-- ===== src/ParamValidate/Digits.antt =====
-- The digits of the two alphabets, and the place of a character in a text.
use Prim.Native.Char.{Char, code}
use Prim.Native.String.{String}
use hola.Prelude.{
  ◌≡◌, refl, ℕ, zero, suc, ◌<◌, Bool, true, false, ◌&&◌, not, Option, none, some, List, arith,
  if◌then◌else◌, All, ◌==◌, both_of,
}
use hola.ParamValidate.Encoding.{char_at, sextet, url_char, strip_padding, hex_chars}

abbrev pub AreBytes : List ℕ → Type 0
AreBytes = All (λ b. b < 256)

-- The place of a character in a text.
pub place_of : ℕ → String → Option ℕ
place_of c String.[] = none
place_of c (String.◌∷◌ d s) =
    let rest = place_of c s in
    if code d == c then some 0 else elim rest [ none ↦ none | some i ↦ some (suc i) ]

abbrev pub url_chars : String
url_chars = "ABCDEFGHIJKLMNOPQRSTUVWXYZabcdefghijklmnopqrstuvwxyz0123456789-_"

-- A test of the numbers from 0 up to a bound, which a table is checked by.
table : (ℕ → Bool) → ℕ → Bool
table entry zero = true
table entry (suc size) = table entry size && entry size

entry-of_table :
    (entry : ℕ → Bool) (size i : ℕ) → i < size → table entry size ≡ true → entry i ≡ true
unfolding table
entry-of_table entry zero i lt h = elim lt [ ]
entry-of_table entry (suc size) i lt h = ground (arith, entry-of_table entry size i)

is_place : Option ℕ → ℕ → Bool
is_place none n = false
is_place (some m) n = m == n

place-is_place : (o : Option ℕ) (n : ℕ) → is_place o n ≡ true → o ≡ some n
unfolding is_place
place-is_place none n h = absurd (cc)
place-is_place (some m) n h = ground arith

hex_table : table (λ n. is_place (place_of (code (char_at hex_chars n)) hex_chars) n) 16 ≡ true
unfolding table is_place place_of char_at
hex_table = refl

url_table :
    table
      (λ n.
        is_place (place_of (code (url_char (sextet n))) url_chars) n
        && not (code (url_char (sextet n)) == b'='))
      64
    ≡ true
unfolding table is_place place_of char_at sextet url_char
url_table = refl

pub hex_digit : (n : ℕ) → n < 16 → place_of (code (char_at hex_chars n)) hex_chars ≡ some n
hex_digit n lt =
    place-is_place (place_of (code (char_at hex_chars n)) hex_chars) n
      (entry-of_table _ 16 n lt hex_table)

unfoldable pub url_text : ℕ → Char
url_text n = url_char (sextet n)

url_facts :
    (n : ℕ)
    → n < 64
    → (is_place (place_of (code (url_text n)) url_chars) n ≡ true)
      × (not (code (url_text n) == b'=') ≡ true)
unfolding url_text
url_facts n lt =
    both_of (is_place (place_of (code (url_char (sextet n))) url_chars) n)
      (not (code (url_char (sextet n)) == b'=')) (entry-of_table _ 64 n lt url_table)

pub url_digit : (n : ℕ) → n < 64 → place_of (code (url_text n)) url_chars ≡ some n
url_digit n lt = place-is_place (place_of (code (url_text n)) url_chars) n (url_facts n lt).0

pub strip_padding-digit :
    (n : ℕ) (s : String)
    → n < 64
    → strip_padding (String.◌∷◌ (url_text n) s) ≡ String.◌∷◌ (url_text n) (strip_padding s)
unfolding strip_padding
strip_padding-digit n s lt = ground (arith, url_facts n lt)
