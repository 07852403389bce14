-- ===== src/ParamValidate.antt =====
-- packages/shared/src/param-validate.ts: the values of an app's parameters against their specs, and
-- the specs themselves. The messages are left out; the bounds of a spec are integers.
pub mod Specs
pub mod Bounds
pub mod Defaults
pub mod Encoding
pub mod Digits
pub mod Decoding
use Prim.Native.Char.{code}
use Prim.Native.String.{String, [], ◌∷◌}
use mathlib.Core.List
use mathlib.Core.List.{List, ◌++◌}
use hola.Prelude.{
  ℕ, zero, suc, ◌+◌, ◌-◌, ◌^◌, Bool, true, false, ◌&&◌, ◌||◌, not, Option, none, some, ◌==◌, ltb,
  leb, str_eq, if◌then◌else◌, includes, is_empty_text, is_some, value_or, any, length, map, cat,
  read_digits,
}
use hola.Prelude.Int.{ℤ, pos, negsuc, less_than, larger, smaller}
use hola.Versions.{units}
use hola.ComposeValidate.Document.{known_platform_tokens}

-- `other` is a type that the manifest names and the program does not know.
pub data ParamType : Type 0 where
  text integer port boolean enum url email timezone : ParamType
  other : String → ParamType

pub data GenerateKind : Type 0 where
  hex base64 fernet : GenerateKind

pub record ParamGenerate : Type 0 where
  pub kind : GenerateKind
  pub length : Option ℕ

-- `AppEnvVar`, with the fields that the validation reads.
pub record ParamSpec : Type 0 where
  pub key : String
  pub value : String
  pub is_secret : Bool
  pub type_name : Option ParamType
  pub required : Option Bool
  pub pattern : Option String
  pub min_length : Option ℕ
  pub max_length : Option ℕ
  pub min : Option ℤ
  pub max : Option ℤ
  pub options : Option (List String)
  pub true_value : Option String
  pub false_value : Option String
  pub https_only : Option Bool
  pub generate : Option ParamGenerate

pub data ParamIssueCode : Type 0 where
  required_missing invalid_integer integer_out_of_range invalid_port invalid_boolean :
      ParamIssueCode
  invalid_enum_value invalid_url url_not_https invalid_email invalid_timezone : ParamIssueCode
  pattern_mismatch too_short too_long invalid_spec : ParamIssueCode

pub record ParamIssue : Type 0 where
  pub code : ParamIssueCode
  pub path : String

-- JavaScript's engine: `new RegExp(p)` and its `test`, or `none` where it throws; the protocol of
-- `new URL(s)`, or `none`; the test by `EMAIL_RE`; and whether a time zone is known.
pub record ParamEngine : Type 0 where
  pub compile_pattern : String → Option (String → Bool)
  pub url_protocol : String → Option String
  pub is_email : String → Bool
  pub is_valid_timezone : String → Bool

abbrev is_effectively_required : ParamSpec → Bool
is_effectively_required spec = value_or spec.required spec.is_secret

abbrev pub env_path : ParamSpec → String
env_path spec = cat "env." spec.key

abbrev pub no_issue : List ParamIssue
no_issue = List.[]

abbrev pub flag : Bool → ParamIssueCode → String → List ParamIssue
flag test code path =
    if test then List.◌∷◌ (record { code = code; path = path }) List.[] else no_issue

abbrev max_safe_integer : ℕ
max_safe_integer = 2 ^ 53 - 1

abbrev safe : (ℕ → ℤ) → Option ℕ → Option ℤ
safe sign none = none
safe sign (some n) = if leb n max_safe_integer then some (sign n) else none

-- `-n`
abbrev negative : ℕ → ℤ
negative zero = pos 0
negative (suc n) = negsuc n

abbrev digits : String → Option ℕ
digits s = if is_empty_text s then none else read_digits 10 0 s

-- The number of a text that `/^-?\d+$/` matches, if it is a safe integer.
unfoldable pub read_integer : String → Option ℤ
read_integer [] = none
read_integer (c ∷ s) =
    if code c == b'-' then safe negative (digits s) else safe pos (digits (c ∷ s))

-- `value.length`
abbrev text_length : String → ℕ
text_length s = length (units s)

abbrev max_pattern_value_length : ℕ
max_pattern_value_length = 10000

abbrev below_min : Option ℤ → ℤ → Bool
below_min none n = false
below_min (some m) n = less_than n m

abbrev above_max : Option ℤ → ℤ → Bool
above_max none n = false
above_max (some m) n = less_than m n

abbrev is_shorter : Option ℕ → ℕ → Bool
is_shorter none n = false
is_shorter (some m) n = ltb n m

abbrev is_longer : Option ℕ → ℕ → Bool
is_longer none n = false
is_longer (some m) n = ltb m n

unfoldable pub port_min : ParamSpec → ℤ
port_min spec = larger (pos 1) (value_or spec.min (pos 1))

unfoldable pub port_max : ParamSpec → ℤ
port_max spec = smaller (pos 65535) (value_or spec.max (pos 65535))

abbrev true_text : ParamSpec → String
true_text spec = value_or spec.true_value "true"

abbrev false_text : ParamSpec → String
false_text spec = value_or spec.false_value "false"

abbrev pub is_boolean_text : ParamSpec → String → Bool
is_boolean_text spec value = str_eq value (true_text spec) || str_eq value (false_text spec)

abbrev pub has_options : ParamSpec → Bool
has_options spec = elim spec.options [ none ↦ false | some os ↦ ltb 0 (length os) ]

abbrev pub is_option : ParamSpec → String → Bool
is_option spec value = elim spec.options [ none ↦ false | some os ↦ includes os value ]

module _ (engine : ParamEngine) where
  abbrev mismatches : Option (String → Bool) → String → Bool
  mismatches none value = false
  mismatches (some test) value = not (test value)

  abbrev is_mismatch : Option String → String → Bool
  is_mismatch none value = false
  is_mismatch (some p) value =
      ltb (text_length value) max_pattern_value_length
      && mismatches (engine.compile_pattern p) value

  abbrev text_issues : ParamSpec → String → String → List ParamIssue
  text_issues spec value at =
      flag (is_mismatch spec.pattern value) pattern_mismatch at
      ++ (flag (is_shorter spec.min_length (text_length value)) too_short at
          ++ flag (is_longer spec.max_length (text_length value)) too_long at)

  abbrev url_issues : ParamSpec → Option String → String → List ParamIssue
  url_issues spec none at = flag true invalid_url at
  url_issues spec (some protocol) at =
      flag (value_or spec.https_only false && not (str_eq protocol "https:")) url_not_https at

  abbrev integer_issues : ParamSpec → Option ℤ → String → List ParamIssue
  integer_issues spec none at = flag true invalid_integer at
  integer_issues spec (some n) at =
      flag (below_min spec.min n || above_max spec.max n) integer_out_of_range at

  abbrev pub port_issues : ParamSpec → Option ℤ → String → List ParamIssue
  port_issues spec none at = flag true invalid_port at
  port_issues spec (some n) at =
      flag (less_than n (port_min spec) || less_than (port_max spec) n) invalid_port at

  unfoldable pub typed_issues : ParamType → ParamSpec → String → String → List ParamIssue
  typed_issues text spec value at = text_issues spec value at
  typed_issues integer spec value at = integer_issues spec (read_integer value) at
  typed_issues port spec value at = port_issues spec (read_integer value) at
  typed_issues boolean spec value at = flag (not (is_boolean_text spec value)) invalid_boolean at
  typed_issues enum spec value at =
      flag (has_options spec && not (is_option spec value)) invalid_enum_value at
  typed_issues url spec value at = url_issues spec (engine.url_protocol value) at
  typed_issues email spec value at = flag (not (engine.is_email value)) invalid_email at
  typed_issues timezone spec value at =
      flag (not (engine.is_valid_timezone value)) invalid_timezone at
  typed_issues (other name) spec value at = no_issue

  unfoldable pub validate_param_value : ParamSpec → String → String → List ParamIssue
  validate_param_value spec value at =
      if is_empty_text value
      then flag (is_effectively_required spec) required_missing at
      else if includes known_platform_tokens value
      then no_issue
      else typed_issues (value_or spec.type_name text) spec value at

  abbrev has_param_spec : ParamSpec → Bool
  has_param_spec spec =
      is_some spec.type_name
      || is_some spec.required
      || is_some spec.pattern
      || is_some spec.min_length
      || is_some spec.max_length
      || is_some spec.min
      || is_some spec.max
      || is_some spec.options
      || is_some spec.true_value
      || is_some spec.false_value
      || is_some spec.https_only
      || is_some spec.generate

  unfoldable validate_params : Bool → List ParamSpec → List ParamIssue
  validate_params skip_custom List.[] = List.[]
  validate_params skip_custom (List.◌∷◌ spec env) =
      (if skip_custom && not (has_param_spec spec)
        then no_issue
        else validate_param_value spec spec.value (env_path spec))
      ++ validate_params skip_custom env
