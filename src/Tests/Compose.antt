-- ===== src/Tests/Compose.antt =====
-- A compose document with one service, and sources that lead out of the data root.
use Prim.Native.String.{String}
use hola.Prelude.{
  ◌≡◌, refl, true, false, Option, some, split, split_last, trim, trim_start, trim_end, is_space,
  after_prefix,
}
use hola.Prelude.Json.{Value, Members, string, array, object, nil, cons, none_left, member, field}
use hola.ComposeValidate.Issues.{has_errors}
use hola.ComposeValidate.Volumes.{
  app_data_containment, suffix_containment, walk, segment_move, escapes, interpolated, outside,
  validate_volumes, volumes_from, validate_volume, before_char,
}
use hola.ComposeValidate.Services.{
  Engine, validate_image, image_tag, after_first, validate_network_mode, validate_environment,
  validate_networks, validate_secrets, env_from, is_env_key,
}
use hola.ComposeValidate.Privileges.{
  validate_ports, ports_from, validate_privileges, key_issues, carries_value, security_opt_issues,
  opts_from,
}
use hola.ComposeValidate.Document.{
  validate_compose_document, validate_compose_object, services_issues, validate_service,
  is_service_name, file_issues, validate_platform_tokens, token_name,
}
use hola.ComposeValidate.Accepted.{IsSafe, validate_compose_document-IsSafe}

climbs : app_data_containment "${HOLA_APP_DATA}/a/../../etc" ≡ escapes 3
unfolding app_data_containment suffix_containment walk segment_move split after_prefix
climbs = refl

interpolates : app_data_containment "${HOLA_APP_DATA}/$UP" ≡ interpolated
unfolding app_data_containment suffix_containment walk segment_move split after_prefix
interpolates = refl

sibling : app_data_containment "${HOLA_APP_DATA}-other/x" ≡ outside
unfolding app_data_containment suffix_containment walk segment_move split after_prefix
sibling = refl

-- An engine for texts that are in lower case.
abbrev plain : Engine
plain = record { to_lower_case = λ s. s; is_image_ref = λ s. true }

abbrev wiki : Members
wiki = member "image" (string "wiki:1.2") (
    member "volumes" (array (cons (string "${HOLA_APP_DATA}/data:/data") nil))
      (member "security_opt" (array (cons (string "no-new-privileges:true") nil)) none_left))

abbrev wiki_document : Value
wiki_document =
    object (member "services" (object (member "wiki" (object wiki) none_left)) none_left)

abbrev parse : String → Option Value
parse text = some wiki_document

wiki_accepted : has_errors (validate_compose_document plain parse "") ≡ false
unfolding validate_compose_document validate_compose_object services_issues validate_service
    is_service_name file_issues validate_platform_tokens token_name validate_image image_tag
    after_first validate_ports ports_from validate_network_mode validate_privileges key_issues
    carries_value opts_from security_opt_issues validate_environment validate_networks
    validate_secrets env_from is_env_key app_data_containment suffix_containment walk segment_move
    split after_prefix validate_volumes volumes_from validate_volume before_char has_errors field
    split_last trim trim_start trim_end is_space
wiki_accepted = refl

validate_compose_document-IsSafe_example :
    (doc : Members) × (services : Members) × (parse "" ≡ some (object doc))
    × IsSafe plain doc services
validate_compose_document-IsSafe_example =
    validate_compose_document-IsSafe plain parse "" wiki_accepted
