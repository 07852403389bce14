-- ===== src/ComposeValidate/Volumes.antt =====
-- The sources of bind mounts, which must lie in the app's data root.
use Prim.Native.Char.{code}
use Prim.Native.String.{String, [], ◌∷◌}
use mathlib.Core.List.{List, ◌++◌}
use text.Mathlib.Text.{starts_with}
use hola.Prelude.{
  ℕ, zero, suc, ◌+◌, Bool, false, ◌&&◌, ◌||◌, not, none, some, ◌==◌, str_eq, if◌then◌else◌, split,
  is_empty_text, after_prefix,
}
use hola.Prelude.Json.{Value, Values, string, array, object, nil, cons, field}
use hola.ComposeValidate.Issues.{
  ValidationIssue, issue, error, at, named_volume_not_allowed, volume_not_under_app_data,
  volume_escapes_app_data, volume_source_interpolated,
}

abbrev pub app_data_token : String
app_data_token = "${HOLA_APP_DATA}"

-- `s.includes(c)`
abbrev pub has_char : ℕ → String → Bool
has_char c [] = false
has_char c (d ∷ s) = code d == c || has_char c s

-- `s.split(c)[0]`
unfoldable pub before_char : ℕ → String → String
before_char c [] = []
before_char c (d ∷ s) = let rest = before_char c s in if code d == c then [] else d ∷ rest

pub data AppDataContainment : Type 0 where
  contained outside interpolated : AppDataContainment
  escapes : ℕ → AppDataContainment

-- What a segment of a path does: nothing, a step down or a step up.
pub data Move : Type 0 where
  stay down up : Move

unfoldable pub segment_move : String → Move
segment_move segment =
    if str_eq segment "" || str_eq segment "."
    then stay
    else if str_eq segment ".."
    then up
    else down

-- The loop over the segments: the depth below the root, and the number of segments behind.
unfoldable pub walk : ℕ → ℕ → List String → AppDataContainment
walk depth i List.[] = contained
walk depth i (List.◌∷◌ segment rest) = elim (segment_move segment) [
  | stay ↦ walk depth (i + 1) rest
  | down ↦ walk (suc depth) (i + 1) rest
  | up ↦ elim depth [ zero ↦ escapes (i + 1) | suc d ↦ walk d (i + 1) rest ]
]

-- What follows the token decides.
unfoldable pub suffix_containment : String → AppDataContainment
suffix_containment [] = contained
suffix_containment (c ∷ rest) =
    if not (code c == b'/')
    then outside
    else if has_char b'$' rest
    then interpolated
    else walk 0 0 (split b'/' rest)

unfoldable pub app_data_containment : String → AppDataContainment
app_data_containment source = elim (after_prefix app_data_token source) [
  | none ↦ outside
  | some suffix ↦ suffix_containment suffix
]

-- The source of a short entry that names a volume, and no path.
abbrev is_volume_name : String → Bool
is_volume_name source =
    not (is_empty_text source)
    && not (has_char b'/' source)
    && not (starts_with source ".")
    && not (starts_with source "~")
    && not (starts_with source "$")

abbrev pub containment_issues : String → AppDataContainment → List ValidationIssue
containment_issues path contained = List.[]
containment_issues path outside = List.◌∷◌ (issue volume_not_under_app_data error path) List.[]
containment_issues path interpolated =
    List.◌∷◌ (issue volume_source_interpolated error path) List.[]
containment_issues path (escapes position) =
    List.◌∷◌ (issue volume_escapes_app_data error path) List.[]

abbrev pub source_issues : String → Bool → String → List ValidationIssue
source_issues path is_named source =
    if is_named
    then List.◌∷◌ (issue named_volume_not_allowed error path) List.[]
    else containment_issues path (app_data_containment source)

abbrev pub is_text : Value → String → Bool
is_text (string s) t = str_eq s t
is_text v t = false

abbrev pub object_source_issues : String → Bool → Value → List ValidationIssue
object_source_issues path is_volume (string source) =
    source_issues path (is_volume && not (is_empty_text source)) source
object_source_issues path is_volume v = List.[]

unfoldable pub validate_volume : String → Value → List ValidationIssue
validate_volume path (string entry) =
    let source = before_char b':' entry in source_issues path (is_volume_name source) source
validate_volume path (object ms) =
    if is_text (field "type" ms) "tmpfs"
    then List.[]
    else object_source_issues path (is_text (field "type" ms) "volume") (field "source" ms)
validate_volume path v = List.[]

unfoldable pub volumes_from : String → ℕ → Values → List ValidationIssue
volumes_from base i nil = List.[]
volumes_from base i (cons v vs) = validate_volume (at base i) v ++ volumes_from base (i + 1) vs

unfoldable pub validate_volumes : String → Value → List ValidationIssue
validate_volumes base (array vs) = volumes_from base 0 vs
validate_volumes base v = List.[]
