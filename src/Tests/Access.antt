-- ===== src/Tests/Access.antt =====
-- Requests to the docker socket's proxy and to the server.
use hola.Prelude.Json.{Value, Members, array, object, nil, cons, none_left, member}
use Prim.Native.String.{String}
use mathlib.Core.List.{[], ◌∷◌}
use hola.Prelude.{
  ◌≡◌, refl, ◌⊎◌, true, false, none, some, split, str_eq, if◌then◌else◌, after_prefix,
}
use hola.DockerProxy.{
  inspect, decide, pathname, strip_version, after_version, before_query, spells, names_container,
  redact_container_list, label_denied,
}
use hola.DockerProxy.Paths.{Serves, decide_sound}
use hola.DockerProxy.Redaction.{IsListing, redact_container_list-IsListing}
use hola.Auth.{
  Principal, Request, bearer, decide_for, required_by, applies, matches, after_part, next,
  AuthResult, authenticated, refuses, auth_middleware, is_public_endpoint, get_required_capability,
  authorize_request, principal_has_capability, is_contract_scoped, resolve_credential, Credential,
  header,
}
use hola.Auth.Scope.{auth_middleware-LetThrough, write_needs_capability, LetThrough}

decided : decide "get" "/v1.43/containers/abc/json?size=1" ≡ some inspect
unfolding decide pathname strip_version after_version before_query spells names_container split
decided = refl

decide_sound_example :
    ((spells "GET" "get" ≡ true) ⊎ (spells "HEAD" "get" ≡ true))
    × Serves inspect (pathname "/v1.43/containers/abc/json?size=1")
decide_sound_example = decide_sound "get" "/v1.43/containers/abc/json?size=1" inspect decided

writes_denied : decide "POST" "/containers/abc/json" ≡ none
unfolding decide pathname strip_version after_version before_query spells names_container split
writes_denied = refl

abbrev labels : Members
labels =
    member "com.docker.compose.project.working_dir" (Value.string "/srv/wiki")
      (member "app" (Value.string "wiki") none_left)

abbrev listing : Value
listing = array (
    cons (object (member "Id" (Value.string "abc") (member "Labels" (object labels) none_left)))
      nil)

redact_container_list-IsListing_example : IsListing (redact_container_list listing)
redact_container_list-IsListing_example = redact_container_list-IsListing listing

abbrev event : Value
event = object (member "Actor" (object (member "Attributes" (object labels) none_left)) none_left)

app_allowed : label_denied "app" ≡ false
unfolding label_denied
app_allowed = refl

abbrev collector : Principal
collector = record { id = "logs"; capabilities = "contract:backup" ∷ [] }

collector_scoped : is_contract_scoped collector ≡ true
unfolding is_contract_scoped
collector_scoped = refl

abbrev admin : Principal
admin = record { id = "admin"; capabilities = "*" ∷ [] }

abbrev install : Request
install = record {
  path = "/api/deployments";
  method = "POST";
  authorization = some "Bearer k1";
  api_key = none;
  session_cookie = none;
  query_token = some "k2";
  query_api_key = none;
}

abbrev known_token : String → AuthResult
known_token t = if str_eq t "k1" then authenticated admin else refuses

not_public : is_public_endpoint "/api/deployments" "POST" ≡ false
unfolding is_public_endpoint
not_public = refl

unfoldable serving : Unit {0}
unfolding auth_middleware is_public_endpoint resolve_credential bearer decide_for authorize_request
    get_required_capability required_by applies matches after_prefix after_part
    principal_has_capability is_contract_scoped
serving = tt

let_in :
    auth_middleware true false known_token principal_has_capability install
    ≡ next (some admin) (some header)
unfolding serving
let_in = refl

write_needs_capability_example :
    (cred : Credential) × (resolve_credential false install ≡ some cred)
    × (p : Principal) × (known_token cred.token ≡ authenticated p)
    × (some admin ≡ some p)
    × LetThrough principal_has_capability install p
write_needs_capability_example =
    write_needs_capability false known_token principal_has_capability install (some admin)
      (some header) not_public refl let_in

abbrev from_header : Credential
from_header = record { token = "k1"; source = header }

resolved : resolve_credential false install ≡ some from_header
unfolding serving
resolved = refl

-- A poll of the status of a backup, by the collector's own token.
abbrev status_poll : Request
status_poll = record {
  path = "/api/contracts/backup/status/j1";
  method = "GET";
  authorization = some "Bearer k1";
  api_key = none;
  session_cookie = none;
  query_token = none;
  query_api_key = none;
}

abbrev collector_token : String → AuthResult
collector_token t = if str_eq t "k1" then authenticated collector else refuses

collector_let_in :
    auth_middleware true false collector_token principal_has_capability status_poll
    ≡ next (some collector) (some header)
unfolding serving
collector_let_in = refl

auth_middleware-LetThrough_example :
    (cred : Credential) × (resolve_credential false status_poll ≡ some cred)
    × (collector_token cred.token ≡ authenticated collector)
    × LetThrough principal_has_capability status_poll collector
auth_middleware-LetThrough_example =
    auth_middleware-LetThrough false collector_token principal_has_capability status_poll collector
      (some header) collector_scoped collector_let_in
