-- ===== src/ComposeValidate/Document.antt =====
-- The checks of a whole document.
use Prim.Native.Char.{code}
use Prim.Native.String.{String, [], ◌∷◌}
use mathlib.Core.List.{List, ◌++◌}
use hola.Prelude.{
  Bool, true, false, ◌&&◌, ◌||◌, not, Option, none, some, ◌==◌, leb, if◌then◌else◌, includes,
  is_empty_text, trim, after_prefix, cat,
}
use hola.Prelude.Json.{Value, Members, undefined, null, object, none_left, member, field}
use hola.ComposeValidate.Issues.{
  ValidationIssue, issue, error, warning, dot, invalid_yaml, no_services, unsupported_key,
  invalid_service, invalid_service_name, reserved_service_name, file_source_not_allowed,
  unknown_platform_token,
}
use hola.ComposeValidate.Volumes.{validate_volumes}
use hola.ComposeValidate.Services.{
  Engine, one, when, keys, defined_names, is_letter, is_digit, every_char, text_of, validate_image,
  validate_network_mode, validate_environment, validate_networks, validate_secrets,
}
use hola.ComposeValidate.Privileges.{validate_ports, validate_privileges}

abbrev supported_top_level_keys : List String
supported_top_level_keys = List.◌∷◌ "version" (
    List.◌∷◌ "name" (
      List.◌∷◌ "services" (
        List.◌∷◌ "volumes"
          (List.◌∷◌ "networks" (List.◌∷◌ "secrets" (List.◌∷◌ "configs" List.[]))))))

-- `/^[a-zA-Z0-9][a-zA-Z0-9_.-]*$/`
unfoldable pub is_service_name : String → Bool
is_service_name [] = false
is_service_name (c ∷ s) =
    (is_letter (code c) || is_digit (code c))
    && every_char (λ d. is_letter d || is_digit d || d == b'_' || d == b'.' || d == b'-') s

abbrev pub reserved_service_names : List String
reserved_service_names = List.◌∷◌ "hola-docker-proxy" List.[]

-- The source file of a secret or config, which is empty if there is none.
abbrev pub file_of : Value → String
file_of (object ms) = text_of (field "file" ms)
file_of v = ""

unfoldable pub file_issues : String → Members → List ValidationIssue
file_issues kind none_left = List.[]
file_issues kind (member name def ms) =
    when (not (is_empty_text (trim (file_of def))))
      (issue file_source_not_allowed error (dot (dot kind name) "file"))
    ++ file_issues kind ms

abbrev pub validate_file_sources : String → Value → List ValidationIssue
validate_file_sources kind (object ms) = file_issues kind ms
validate_file_sources kind v = List.[]

-- `[A-Z0-9_]+` and a closing brace: the name, if the text starts so
unfoldable pub token_name : String → Option String
token_name [] = none
token_name (c ∷ s) =
    let more = token_name s in
    if code c == b'}'
    then some []
    else if (leb b'A' (code c) && leb (code c) b'Z') || is_digit (code c) || code c == b'_'
    then elim more [ none ↦ none | some name ↦ some (c ∷ name) ]
    else none

abbrev token_at : String → Option String
token_at s = elim (after_prefix "${HOLA_" s) [
  | none ↦ none
  | some rest ↦ elim (token_name rest) [
    | none ↦ none
    | some name ↦ if is_empty_text name then none else some (cat "${HOLA_" (cat name "}"))
  ]
]

abbrev pub known_platform_tokens : List String
known_platform_tokens = List.◌∷◌ "${HOLA_APP_DATA}" (
    List.◌∷◌ "${HOLA_APP_HOST}" (
      List.◌∷◌ "${HOLA_BASE_DOMAIN}"
        (List.◌∷◌ "${HOLA_USER_EMAIL}" (List.◌∷◌ "${HOLA_USER_USERNAME}" List.[]))))

-- The matches in their order, with the tokens reported before.
unfoldable pub validate_platform_tokens : List String → String → List ValidationIssue
validate_platform_tokens seen [] = List.[]
validate_platform_tokens seen (c ∷ s) = elim (token_at (c ∷ s)) [
  | none ↦ validate_platform_tokens seen s
  | some token ↦ elim (includes seen token || includes known_platform_tokens token) [
    | true ↦ validate_platform_tokens seen s
    | false ↦
        one (issue unknown_platform_token warning "")
        ++ validate_platform_tokens (List.◌∷◌ token seen) s
  ]
]

-- The resources that the document defines at its top level.
pub record Defined : Type 0 where
  pub networks : List String
  pub secrets : List String

module _ (engine : Engine) where
  abbrev pub service_issues : Defined → String → Value → List ValidationIssue
  service_issues defined name (object svc) =
      let base = dot "services" name in
      validate_image engine name (field "image" svc) (field "build" svc)
      ++ (validate_ports name (field "ports" svc)
          ++ (validate_network_mode engine name (field "network_mode" svc)
              ++ (validate_privileges name svc
                  ++ (validate_environment (dot base "environment") (field "environment" svc)
                      ++ (validate_volumes (dot base "volumes") (field "volumes" svc)
                          ++ (validate_networks (dot base "networks") defined.networks
                                (field "networks" svc)
                              ++ validate_secrets (dot base "secrets") defined.secrets
                                  (field "secrets" svc)))))))
  service_issues defined name v = one (issue invalid_service error (dot "services" name))

  unfoldable pub validate_service : Defined → String → Value → List ValidationIssue
  validate_service defined name raw =
      when (not (is_service_name name)) (issue invalid_service_name error (dot "services" name))
      ++ (when (includes reserved_service_names name)
            (issue reserved_service_name error (dot "services" name))
          ++ service_issues defined name raw)

  unfoldable pub services_issues : Defined → Members → List ValidationIssue
  services_issues defined none_left = List.[]
  services_issues defined (member name raw ms) =
      validate_service defined name raw ++ services_issues defined ms

  abbrev pub unsupported : List String → List ValidationIssue
  unsupported List.[] = List.[]
  unsupported (List.◌∷◌ key rest) =
      when (not (includes supported_top_level_keys key)) (issue unsupported_key warning key)
      ++ unsupported rest

  abbrev pub services_of : Members → Value → List ValidationIssue
  services_of doc (object (member name raw ms)) =
      validate_file_sources "secrets" (field "secrets" doc)
      ++ (validate_file_sources "configs" (field "configs" doc)
          ++ services_issues
              (record {
                networks = defined_names (field "networks" doc);
                secrets = defined_names (field "secrets" doc);
              })
              (member name raw ms))
  services_of doc v = one (issue no_services error "services")

  unfoldable pub validate_compose_object : Value → List ValidationIssue
  validate_compose_object (object doc) =
      unsupported (keys doc) ++ services_of doc (field "services" doc)
  validate_compose_object v = one (issue invalid_yaml error "")

  -- A document's text; `parse_yaml` is the YAML library's `parse`, with `none` where it throws.
  abbrev pub parsed_issues : String → Option Value → List ValidationIssue
  parsed_issues text none = one (issue invalid_yaml error "")
  parsed_issues text (some undefined) = one (issue no_services error "services")
  parsed_issues text (some null) = one (issue no_services error "services")
  parsed_issues text (some v) = validate_compose_object v ++ validate_platform_tokens List.[] text

  unfoldable pub validate_compose_document : (String → Option Value) → String → List ValidationIssue
  validate_compose_document parse_yaml text = parsed_issues text (parse_yaml text)
