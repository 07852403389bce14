-- ===== src/ParamValidate/Decoding.antt =====
-- The bytes behind a generated secret.
use Prim.Native.Char.{Char, code}
use Prim.Native.String.{String}
use hola.Prelude.{
  ◌≡◌, refl, ap, ◌∙◌, ℕ, ◌+◌, ◌*◌, ◌/◌, ◌%◌, ◌<◌, Option, none, some, List, [], ◌∷◌, arith,
}
use hola.ParamValidate.{GenerateKind, ParamGenerate, hex, base64, fernet}
use hola.ParamValidate.Encoding.{
  bytes_to_base64, url_char, replaced, strip_padding, bytes_to_base64_url,
  bytes_to_base64_url_padded, hex_chars, bytes_to_hex, generate_secret_value, encode_as, byte_count,
}
use hola.ParamValidate.Digits.{
  AreBytes, place_of, url_chars, hex_digit, url_text, url_digit, strip_padding-digit,
}

-- The bytes that four digits stand for, or three or two at the end of the text.
abbrev three : ℕ → ℕ → ℕ → ℕ → List ℕ → List ℕ
three x y z w rest = (x * 4 + y / 16) ∷ (y % 16 * 16 + z / 4) ∷ (z % 4 * 64 + w) ∷ rest

abbrev join4 : Option ℕ → Option ℕ → Option ℕ → Option ℕ → Option (List ℕ) → Option (List ℕ)
join4 (some x) (some y) (some z) (some w) (some rest) = some (three x y z w rest)
join4 _ _ _ _ _ = none

abbrev join3 : Option ℕ → Option ℕ → Option ℕ → Option (List ℕ)
join3 (some x) (some y) (some z) = some ((x * 4 + y / 16) ∷ (y % 16 * 16 + z / 4) ∷ [])
join3 _ _ _ = none

abbrev join2 : Option ℕ → Option ℕ → Option (List ℕ)
join2 (some x) (some y) = some ((x * 4 + y / 16) ∷ [])
join2 _ _ = none

abbrev digit : Char → Option ℕ
digit c = place_of (code c) url_chars

-- RFC 4648's base64url without padding.
pub decode_base64_url : String → Option (List ℕ)
decode_base64_url String.[] = some []
decode_base64_url (String.◌∷◌ p String.[]) = none
decode_base64_url (String.◌∷◌ p (String.◌∷◌ q String.[])) = join2 (digit p) (digit q)
decode_base64_url (String.◌∷◌ p (String.◌∷◌ q (String.◌∷◌ r String.[]))) =
    join3 (digit p) (digit q) (digit r)
decode_base64_url (String.◌∷◌ p (String.◌∷◌ q (String.◌∷◌ r (String.◌∷◌ s rest)))) =
    join4 (digit p) (digit q) (digit r) (digit s) (decode_base64_url rest)

four_digits :
    (x y z w : ℕ) (text : String) (rest : List ℕ)
    → x < 64
    → y < 64
    → z < 64
    → w < 64
    → decode_base64_url text ≡ some rest
    → decode_base64_url (
        String.◌∷◌
          (url_text x)
          (String.◌∷◌ (url_text y) (String.◌∷◌ (url_text z) (String.◌∷◌ (url_text w) text))))
      ≡ some (three x y z w rest)
unfolding decode_base64_url
four_digits x y z w text rest hx hy hz hw h =
    rw (url_digit x hx) (rw (url_digit y hy) (rw (url_digit z hz) (rw (url_digit w hw) (rw h))))

two_digits :
    (x y : ℕ)
    → x < 64
    → y < 64
    → decode_base64_url (
        strip_padding (
          String.◌∷◌
            (url_text x)
            (String.◌∷◌ (url_text y) (String.◌∷◌ "=" (String.◌∷◌ "=" String.[])))))
      ≡ some ((x * 4 + y / 16) ∷ [])
unfolding decode_base64_url strip_padding
two_digits x y hx hy =
    rw (strip_padding-digit x _ hx)
      (rw (strip_padding-digit y _ hy) (rw (url_digit x hx) (rw (url_digit y hy))))

three_digits :
    (x y z : ℕ)
    → x < 64
    → y < 64
    → z < 64
    → decode_base64_url (
        strip_padding (
          String.◌∷◌
            (url_text x)
            (String.◌∷◌ (url_text y) (String.◌∷◌ (url_text z) (String.◌∷◌ "=" String.[])))))
      ≡ some ((x * 4 + y / 16) ∷ (y % 16 * 16 + z / 4) ∷ [])
unfolding decode_base64_url strip_padding
three_digits x y z hx hy hz = rw (strip_padding-digit x _ hx) (
    rw (strip_padding-digit y _ hy) (
      rw (strip_padding-digit z _ hz)
        (rw (url_digit x hx) (rw (url_digit y hy) (rw (url_digit z hz))))))

stripped4 :
    (x y z w : ℕ) (text : String)
    → x < 64
    → y < 64
    → z < 64
    → w < 64
    → strip_padding (
        String.◌∷◌
          (url_text x)
          (String.◌∷◌ (url_text y) (String.◌∷◌ (url_text z) (String.◌∷◌ (url_text w) text))))
      ≡ String.◌∷◌ (url_text x) (
          String.◌∷◌
            (url_text y)
            (String.◌∷◌ (url_text z) (String.◌∷◌ (url_text w) (strip_padding text))))
stripped4 x y z w text hx hy hz hw =
    strip_padding-digit x _ hx
    ∙ ap (String.◌∷◌ (url_text x)) (
        strip_padding-digit y _ hy
        ∙ ap (String.◌∷◌ (url_text y)) (
            strip_padding-digit z _ hz
            ∙ ap (String.◌∷◌ (url_text z)) (strip_padding-digit w text hw)))

three_bytes :
    (a b c : ℕ) (rest : List ℕ)
    → a < 256
    → b < 256
    → c < 256
    → three (a / 4) (a % 4 * 16 + b / 16) (b % 16 * 4 + c / 64) (c % 64) rest ≡ a ∷ b ∷ c ∷ rest
three_bytes a b c rest ha hb hc = ground arith

decode-bytes_to_base64_url :
    (bytes : List ℕ) → AreBytes bytes → decode_base64_url (bytes_to_base64_url bytes) ≡ some bytes
unfolding bytes_to_base64_url replaced bytes_to_base64 url_text strip_padding decode_base64_url
    url_char
decode-bytes_to_base64_url [] h = refl
decode-bytes_to_base64_url (a ∷ []) h =
    two_digits (a / 4) (a % 4 * 16) (omega arith) (omega arith) ∙ ground arith
decode-bytes_to_base64_url (a ∷ b ∷ []) h =
    three_digits (a / 4) (a % 4 * 16 + b / 16) (b % 16 * 4) (omega arith) (omega arith)
      (omega arith)
    ∙ ground arith
decode-bytes_to_base64_url (a ∷ b ∷ c ∷ rest) h =
    ap decode_base64_url (
      stripped4 (a / 4) (a % 4 * 16 + b / 16) (b % 16 * 4 + c / 64) (c % 64)
        (replaced (bytes_to_base64 rest)) (omega arith) (omega arith) (omega arith) (omega arith))
    ∙ four_digits (a / 4) (a % 4 * 16 + b / 16) (b % 16 * 4 + c / 64) (c % 64)
        (bytes_to_base64_url rest) rest (omega arith) (omega arith) (omega arith) (omega arith)
        (decode-bytes_to_base64_url rest h.1.1.1)
    ∙ ap some (three_bytes a b c rest h.0 h.1.0 h.1.1.0)

abbrev join_hex : Option ℕ → Option ℕ → Option (List ℕ) → Option (List ℕ)
join_hex (some x) (some y) (some bytes) = some ((x * 16 + y) ∷ bytes)
join_hex _ _ _ = none

pub decode_hex : String → Option (List ℕ)
decode_hex String.[] = some []
decode_hex (String.◌∷◌ p String.[]) = none
decode_hex (String.◌∷◌ p (String.◌∷◌ q rest)) =
    join_hex (place_of (code p) hex_chars) (place_of (code q) hex_chars) (decode_hex rest)

decode-bytes_to_hex :
    (bytes : List ℕ) → AreBytes bytes → decode_hex (bytes_to_hex bytes) ≡ some bytes
unfolding decode_hex bytes_to_hex
decode-bytes_to_hex [] h = refl
decode-bytes_to_hex (b ∷ rest) h =
    rw (hex_digit (b / 16) (omega arith))
      (rw (hex_digit (b % 16) (omega arith)) (rw (decode-bytes_to_hex rest h.1) (ground arith)))

-- The decoder that goes with each kind; Fernet's takes the padding off.
pub decode_secret : GenerateKind → String → Option (List ℕ)
decode_secret fernet s = decode_base64_url (strip_padding s)
decode_secret hex s = decode_hex s
decode_secret base64 s = decode_base64_url s

decode_secret-encode_as :
    (kind : GenerateKind) (bytes : List ℕ)
    → AreBytes bytes
    → decode_secret kind (encode_as kind bytes) ≡ some bytes
unfolding decode_secret encode_as bytes_to_base64_url_padded bytes_to_base64_url
decode_secret-encode_as hex bytes h = decode-bytes_to_hex bytes h
decode_secret-encode_as base64 bytes h = decode-bytes_to_base64_url bytes h
decode_secret-encode_as fernet bytes h = decode-bytes_to_base64_url bytes h

-- A generated secret keeps all of its random bytes: for each kind, hexadecimal, base64url or a
-- padded Fernet key, decoding the text gives back the bytes that were drawn.
pub decode_secret-generate_secret_value :
    (random_bytes : ℕ → List ℕ) (gen : ParamGenerate)
    → AreBytes (random_bytes (byte_count gen.kind gen.length))
    → decode_secret gen.kind (generate_secret_value random_bytes gen)
      ≡ some (random_bytes (byte_count gen.kind gen.length))
unfolding generate_secret_value
decode_secret-generate_secret_value random_bytes gen h =
    decode_secret-encode_as gen.kind (random_bytes (byte_count gen.kind gen.length)) h
