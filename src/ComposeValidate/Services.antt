-- ===== src/ComposeValidate/Services.antt =====
-- The checks of one service: its image, ports, networks, environment, secrets, and the keys that
-- would give it more than a container's own authority.
use Prim.Native.Char.{code}
use Prim.Native.String.{String, [], ◌∷◌}
use mathlib.Core.List.{List, ◌++◌}
use text.Mathlib.Text.{starts_with}
use hola.Prelude.{
  ℕ, ◌+◌, Bool, true, false, ◌&&◌, ◌||◌, not, Option, none, some, ◌==◌, leb, str_eq, if◌then◌else◌,
  includes, is_empty_text, trim, split_last,
}
use hola.Prelude.Json.{
  Value, Values, Members, undefined, null, string, array, object, nil, cons, none_left, member,
  field,
}
use hola.ComposeValidate.Issues.{
  ValidationIssue, issue, error, warning, dot, at, image_and_build_conflict, missing_image_or_build,
  invalid_image_ref, image_missing_tag, image_mutable_tag, invalid_env_form, duplicate_env_key,
  undefined_network, undefined_secret, host_network_mode_not_allowed,
  foreign_network_mode_not_allowed,
}
use hola.ComposeValidate.Volumes.{before_char, has_char}

-- What JavaScript's engine does: `s.toLowerCase()`, and the test by `IMAGE_REF_RE`.
pub record Engine : Type 0 where
  pub to_lower_case : String → String
  pub is_image_ref : String → Bool

abbrev pub none_found : List ValidationIssue
none_found = List.[]

abbrev pub one : ValidationIssue → List ValidationIssue
one i = List.◌∷◌ i List.[]

abbrev pub when : Bool → ValidationIssue → List ValidationIssue
when test i = if test then one i else none_found

-- `Object.keys(block)`, if the block is a mapping
abbrev pub keys : Members → List String
keys none_left = List.[]
keys (member k v ms) = List.◌∷◌ k (keys ms)

abbrev pub defined_names : Value → List String
defined_names (object ms) = keys ms
defined_names v = List.[]

abbrev pub is_letter : ℕ → Bool
is_letter c = (leb b'a' c && leb c b'z') || (leb b'A' c && leb c b'Z')

abbrev pub is_digit : ℕ → Bool
is_digit c = leb b'0' c && leb c b'9'

abbrev pub every_char : (ℕ → Bool) → String → Bool
every_char p [] = true
every_char p (c ∷ s) = p (code c) && every_char p s

-- `/^[A-Za-z_][A-Za-z0-9_]*$/`
unfoldable pub is_env_key : String → Bool
is_env_key [] = false
is_env_key (c ∷ s) =
    (is_letter (code c) || code c == b'_')
    && every_char (λ d. is_letter d || is_digit d || d == b'_') s

-- The entries of a list, with the keys seen before.
unfoldable pub env_from : String → ℕ → List String → Values → List ValidationIssue
env_from base i seen nil = List.[]
env_from base i seen (cons (string entry) vs) =
    let key = before_char b'=' entry in
    let invalid = one (issue invalid_env_form error (at base i)) ++ env_from base (i + 1) seen vs in
    let valid =
      when (includes seen key) (issue duplicate_env_key warning (at base i))
      ++ env_from base (i + 1) (List.◌∷◌ key seen) vs in
    if is_env_key key then valid else invalid
env_from base i seen (cons v vs) =
    one (issue invalid_env_form error (at base i)) ++ env_from base (i + 1) seen vs

abbrev pub env_keys : String → Members → List ValidationIssue
env_keys base none_left = List.[]
env_keys base (member k v ms) =
    when (not (is_env_key k)) (issue invalid_env_form error (dot base k)) ++ env_keys base ms

unfoldable pub validate_environment : String → Value → List ValidationIssue
validate_environment base undefined = List.[]
validate_environment base null = List.[]
validate_environment base (array vs) = env_from base 0 List.[] vs
validate_environment base (object ms) = env_keys base ms
validate_environment base v = one (issue invalid_env_form error base)

abbrev strings_in : Values → List String
strings_in nil = List.[]
strings_in (cons (string s) vs) = List.◌∷◌ s (strings_in vs)
strings_in (cons v vs) = strings_in vs

abbrev network_refs : Value → List String
network_refs (array vs) = strings_in vs
network_refs (object ms) = keys ms
network_refs v = List.[]

abbrev networks_of : String → List String → List String → List ValidationIssue
networks_of base defined List.[] = List.[]
networks_of base defined (List.◌∷◌ name rest) =
    when (not (str_eq name "default") && not (includes defined name))
      (issue undefined_network error base)
    ++ networks_of base defined rest

unfoldable pub validate_networks : String → List String → Value → List ValidationIssue
validate_networks base defined nets = networks_of base defined (network_refs nets)

-- The name that an entry refers to; an empty one is none.
abbrev pub text_of : Value → String
text_of (string s) = s
text_of v = ""

abbrev secret_name : Value → String
secret_name (string s) = s
secret_name (object ms) = text_of (field "source" ms)
secret_name v = ""

unfoldable pub secrets_from : String → ℕ → List String → Values → List ValidationIssue
secrets_from base i defined nil = List.[]
secrets_from base i defined (cons v vs) =
    when (not (is_empty_text (secret_name v)) && not (includes defined (secret_name v)))
      (issue undefined_secret error (at base i))
    ++ secrets_from base (i + 1) defined vs

unfoldable pub validate_secrets : String → List String → Value → List ValidationIssue
validate_secrets base defined (array vs) = secrets_from base 0 defined vs
validate_secrets base defined v = List.[]

-- What follows the first of a character
unfoldable pub after_first : ℕ → String → Option String
after_first c [] = none
after_first c (d ∷ s) = let rest = after_first c s in if code d == c then some s else rest

abbrev last_segment : String → String
last_segment s = elim (split_last b'/' s) [ none ↦ s | some (a, b) ↦ b ]

-- The tag, past a registry's port and before a digest.
unfoldable pub image_tag : String → Option String
image_tag ref = after_first b':' (last_segment (before_char b'@' ref))

abbrev mutable_image_tags : List String
mutable_image_tags = List.◌∷◌ "latest" (
    List.◌∷◌ "stable" (
      List.◌∷◌ "edge" (
        List.◌∷◌ "nightly" (
          List.◌∷◌ "rolling" (
            List.◌∷◌ "current" (
              List.◌∷◌ "lts" (
                List.◌∷◌ "dev" (
                  List.◌∷◌ "devel" (
                    List.◌∷◌ "develop" (
                      List.◌∷◌ "main" (
                        List.◌∷◌ "master" (
                          List.◌∷◌ "mainline" (
                            List.◌∷◌ "trunk" (
                              List.◌∷◌ "release" (
                                List.◌∷◌ "beta" (
                                  List.◌∷◌ "alpha" (
                                    List.◌∷◌ "rc" (
                                      List.◌∷◌ "canary" (
                                        List.◌∷◌ "next"
                                          (List.◌∷◌ "unstable" List.[]))))))))))))))))))))

abbrev is_present : Value → Bool
is_present undefined = false
is_present null = false
is_present v = true

module _ (engine : Engine) where
  abbrev tag_issues : String → Option String → List ValidationIssue
  tag_issues path none = one (issue image_missing_tag error path)
  tag_issues path (some tag) =
      when (includes mutable_image_tags (engine.to_lower_case tag))
        (issue image_mutable_tag error path)

  abbrev reference_issues : String → String → List ValidationIssue
  reference_issues path ref =
      if not (engine.is_image_ref ref)
      then one (issue invalid_image_ref error path)
      else if not (has_char b'@' ref)
      then tag_issues path (image_tag ref)
      else none_found

  unfoldable pub validate_image : String → Value → Value → List ValidationIssue
  validate_image name image build =
      let ref = trim (text_of image) in
      let has_image = not (is_empty_text ref) in
      let has_build = is_present build in
      let base = dot "services" name in
      when (has_image && has_build) (issue image_and_build_conflict error base)
      ++ (when (not has_image && not has_build) (issue missing_image_or_build error base)
          ++ (if has_image then reference_issues (dot base "image") ref else none_found))

  unfoldable pub validate_network_mode : String → Value → List ValidationIssue
  validate_network_mode name (string network_mode) =
      let mode = engine.to_lower_case (trim network_mode) in
      let path = dot (dot "services" name) "network_mode" in
      if str_eq mode "host"
      then one (issue host_network_mode_not_allowed error path)
      else when (starts_with mode "container:") (issue foreign_network_mode_not_allowed error path)
  validate_network_mode name v = none_found
