-- ===== src/ParamValidate/Encoding.antt =====
-- The texts of generated secrets. The random bytes are an argument.
use Prim.Native.Char.{Char, code}
use Prim.Native.String.{String, [], ◌∷◌}
use mathlib.Core.List.{List}
use hola.Prelude.{
  ℕ, zero, suc, ◌+◌, ◌*◌, ◌/◌, ◌%◌, ◌==◌, if◌then◌else◌, is_empty_text, ◌&&◌, Option, value_or,
}
use hola.ParamValidate.{GenerateKind, ParamGenerate, hex, base64, fernet}

-- `s[i]`; the calls stay within the text.
unfoldable pub char_at : String → ℕ → Char
char_at [] i = "="
char_at (c ∷ s) zero = c
char_at (c ∷ s) (suc i) = char_at s i

abbrev base64_chars : String
base64_chars = "ABCDEFGHIJKLMNOPQRSTUVWXYZabcdefghijklmnopqrstuvwxyz0123456789+/"

unfoldable pub sextet : ℕ → Char
sextet n = char_at base64_chars n

-- Three bytes, or the one or two at the end: `b >> 2`, `(b & 3) << 4` and the others.
unfoldable pub bytes_to_base64 : List ℕ → String
bytes_to_base64 List.[] = []
bytes_to_base64 (List.◌∷◌ a List.[]) = sextet (a / 4) ∷ sextet (a % 4 * 16) ∷ "=" ∷ "=" ∷ []
bytes_to_base64 (List.◌∷◌ a (List.◌∷◌ b List.[])) =
    sextet (a / 4) ∷ sextet (a % 4 * 16 + b / 16) ∷ sextet (b % 16 * 4) ∷ "=" ∷ []
bytes_to_base64 (List.◌∷◌ a (List.◌∷◌ b (List.◌∷◌ c rest))) =
    sextet (a / 4)
    ∷ sextet (a % 4 * 16 + b / 16)
    ∷ sextet (b % 16 * 4 + c / 64)
    ∷ sextet (c % 64)
    ∷ bytes_to_base64 rest

-- `.replace(/\+/g, '-').replace(/\//g, '_')`
unfoldable pub url_char : Char → Char
url_char c = if code c == b'+' then "-" else if code c == b'/' then "_" else c

unfoldable pub replaced : String → String
replaced [] = []
replaced (c ∷ s) = url_char c ∷ replaced s

-- `.replace(/=+$/, '')`
unfoldable pub strip_padding : String → String
strip_padding [] = []
strip_padding (c ∷ s) =
    let rest = strip_padding s in if is_empty_text rest && code c == b'=' then [] else c ∷ rest

unfoldable pub bytes_to_base64_url : List ℕ → String
bytes_to_base64_url bytes = strip_padding (replaced (bytes_to_base64 bytes))

unfoldable pub bytes_to_base64_url_padded : List ℕ → String
bytes_to_base64_url_padded bytes = replaced (bytes_to_base64 bytes)

abbrev pub hex_chars : String
hex_chars = "0123456789abcdef"

-- `b.toString(16).padStart(2, '0')`, for a byte
unfoldable pub bytes_to_hex : List ℕ → String
bytes_to_hex List.[] = []
bytes_to_hex (List.◌∷◌ b rest) =
    char_at hex_chars (b / 16) ∷ char_at hex_chars (b % 16) ∷ bytes_to_hex rest

unfoldable pub encode_as : GenerateKind → List ℕ → String
encode_as fernet bytes = bytes_to_base64_url_padded bytes
encode_as hex bytes = bytes_to_hex bytes
encode_as base64 bytes = bytes_to_base64_url bytes

abbrev pub byte_count : GenerateKind → Option ℕ → ℕ
byte_count fernet length = 32
byte_count hex length = value_or length 32
byte_count base64 length = value_or length 32

-- `random_bytes` is `crypto.getRandomValues` over as many bytes.
unfoldable pub generate_secret_value : (ℕ → List ℕ) → ParamGenerate → String
generate_secret_value random_bytes gen =
    encode_as gen.kind (random_bytes (byte_count gen.kind gen.length))
