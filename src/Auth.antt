-- ===== src/Auth.antt =====
-- packages/server/src/middleware/auth.ts: who may call what. The method is the request's own; the
-- path is the one that the URL parser returns. The authentication service is an argument.
pub mod Scope
use Prim.Native.Char.{code}
use Prim.Native.String.{String, [], ◌∷◌}
use mathlib.Core.List.{List}
use text.Mathlib.Text.{starts_with}
use hola.Prelude.{
  ℕ, Bool, true, false, not, ◌&&◌, ◌||◌, Option, none, some, if◌then◌else◌, ◌==◌, str_eq, includes,
  any, all, is_empty, is_empty_text, split, find, is_some, after_prefix,
}

pub data Source : Type 0 where
  header cookie query : Source

pub record Credential : Type 0 where
  pub token : String
  pub source : Source

-- What the middleware reads of a request: headers and cookies by their names, and the parameters of
-- the query. `decoded` is the value of a cookie as `readCookie` returns it.
pub record Request : Type 0 where
  pub path : String
  pub method : String
  pub authorization : Option String
  pub api_key : Option String
  pub session_cookie : Option String
  pub query_token : Option String
  pub query_api_key : Option String

-- An absent text and an empty one are both falsy.
abbrev pub truthy : Option String → Option String
truthy none = none
truthy (some []) = none
truthy (some (c ∷ s)) = some (c ∷ s)

-- `Bearer ` and what follows it
unfoldable pub bearer : String → Option String
bearer (b ∷ e ∷ a ∷ r ∷ f ∷ g ∷ h ∷ rest) =
    if str_eq (b ∷ e ∷ a ∷ r ∷ f ∷ g ∷ h ∷ []) "Bearer " then some rest else none
bearer _ = none

abbrev credential_from : Source → Option String → Option Credential
credential_from source none = none
credential_from source (some token) = some (record { token = token; source = source })

abbrev first_of {ℓ} : {A : Type ℓ} → Option A → Option A → Option A
first_of none b = b
first_of (some a) b = some a

abbrev bearer_of : Option String → Option String
bearer_of none = none
bearer_of (some h) = bearer h

unfoldable pub resolve_credential : Bool → Request → Option Credential
resolve_credential enable_dev_api req =
    first_of (credential_from header (bearer_of req.authorization)) (
      first_of (credential_from header (truthy req.api_key)) (
        first_of (credential_from cookie (truthy req.session_cookie)) (
          if enable_dev_api
          then credential_from query (first_of (truthy req.query_token) (truthy req.query_api_key))
          else none)))

abbrev public_endpoints : List (String × String)
public_endpoints =
    List.◌∷◌ ("/healthz", "GET")
      (List.◌∷◌ ("/readyz", "GET")
        (List.◌∷◌ ("/metrics", "GET")
          (List.◌∷◌ ("/api/system/health", "GET")
            (List.◌∷◌ ("/api/system/status", "GET")
              (List.◌∷◌ ("/api/echo", "POST")
                (List.◌∷◌ ("/api/auth/config", "GET")
                  (List.◌∷◌ ("/api/auth/login", "POST")
                    (List.◌∷◌ ("/api/auth/logout", "POST") List.[]))))))))

unfoldable pub is_public_endpoint : String → String → Bool
is_public_endpoint path method = any (λ e. str_eq e.0 path && str_eq e.1 method) public_endpoints

-- The regular expressions of the table: a prefix; a whole path; a prefix, one part, a slash and
-- a word, which ends the path or not.
pub data Pattern : Type 0 where
  prefix whole : String → Pattern
  part_then : Bool → String → String → Pattern

-- The rest of the path after `[^/]+`, which must not be empty.
unfoldable pub after_part : String → Option String
after_part [] = none
after_part (c ∷ s) =
    if code c == b'/' then none else elim (after_part s) [ some r ↦ some r | none ↦ some s ]

unfoldable pub matches : Pattern → String → Bool
matches (prefix p) path = starts_with path p
matches (whole p) path = str_eq path p
matches (part_then at_end p word) path = elim (after_prefix p path) [
  | none ↦ false
  | some rest ↦ elim (after_part rest) [
    | none ↦ false
    | some tail ↦ if at_end then str_eq tail word else starts_with tail word
  ]
]

pub record Rule : Type 0 where
  pub pattern : Pattern
  pub method : String
  pub capability : String

abbrev rule : Pattern → String → String → Rule
rule p m c = record { pattern = p; method = m; capability = c }

infixr 5 ◌then◌
abbrev ◌then◌ : Rule → List Rule → List Rule
r then rs = List.◌∷◌ r rs

abbrev pub capability_map : List Rule
capability_map =
    rule (prefix "/api/settings") "PATCH" "write:settings"
    then rule (prefix "/api/settings") "PUT" "write:settings"
    then rule (part_then false "/api/deployments/" "/actions") "POST" "write:deployments"
    then rule (prefix "/api/deployments") "POST" "write:deployments"
    then rule (prefix "/api/deployments") "PATCH" "write:deployments"
    then rule (prefix "/api/deployments") "DELETE" "write:deployments"
    then rule (prefix "/api/drafts") "POST" "write:deployments"
    then rule (prefix "/api/drafts") "PATCH" "write:deployments"
    then rule (prefix "/api/drafts") "DELETE" "write:deployments"
    then rule (prefix "/api/contracts/backup/") "POST" "contract:backup"
    then rule (prefix "/api/contracts/backup/status/") "GET" "contract:backup"
    then rule (whole "/api/contracts/restore/index") "POST" "contract:restore"
    then rule (whole "/api/contracts/restore/requests") "GET" "contract:restore"
    then rule (part_then true "/api/contracts/restore/requests/" "/claim") "POST" "contract:restore"
    then rule (part_then true "/api/contracts/restore/requests/" "/complete") "POST"
        "contract:restore"
    then rule (prefix "/api/backups") "POST" "write:backups"
    then rule (prefix "/api/backups") "DELETE" "write:backups"
    then rule (part_then false "/api/jobs/" "/cancel") "POST" "write:deployments"
    then rule (prefix "/api/system") "POST" "manage:system"
    then rule (prefix "/api/system") "PATCH" "manage:system"
    then rule (prefix "/api/system") "DELETE" "manage:system"
    then List.[]

abbrev pub is_write : String → Bool
is_write method =
    str_eq method "POST" || str_eq method "PUT" || str_eq method "PATCH" || str_eq method "DELETE"

unfoldable pub applies : String → String → Rule → Bool
applies path method r = matches r.pattern path && str_eq r.method method

unfoldable pub required_by : List Rule → String → String → Option String
required_by rules path method = elim (find (applies path method) rules) [
  | some r ↦ some r.capability
  | none ↦ if is_write method then some "write:deployments" else none
]

unfoldable pub get_required_capability : String → String → Option String
get_required_capability path method = required_by capability_map path method

pub record Principal : Type 0 where
  pub id : String
  pub capabilities : List String

unfoldable pub is_contract_scoped : Principal → Bool
is_contract_scoped p =
    not (is_empty p.capabilities) && all (λ c. starts_with c "contract:") p.capabilities

pub data Decision : Type 0 where
  allow outside_contract missing_capability : Decision

unfoldable pub principal_has_capability : Principal → String → Bool
principal_has_capability p capability =
    includes p.capabilities "*" || includes p.capabilities capability

abbrev pub holds_required : (Principal → String → Bool) → Principal → Option String → Bool
holds_required has_capability p none = false
holds_required has_capability p (some c) = has_capability p c

unfoldable pub authorize_request :
    (Principal → String → Bool) → Principal → Option String → Decision
authorize_request has_capability p required =
    let held = holds_required has_capability p required in
    if is_contract_scoped p
    then (if held then allow else outside_contract)
    else if is_some required && not held
    then missing_capability
    else allow

-- The answer of the authentication service: it throws, refuses or names a principal.
pub data AuthResult : Type 0 where
  throws refuses : AuthResult
  authenticated : Principal → AuthResult

-- The response's status, or the next handler with the principal and where its credential came from.
pub data Verdict : Type 0 where
  status : ℕ → Verdict
  next : Option Principal → Option Source → Verdict

abbrev system_principal : Principal
system_principal = record { id = "system"; capabilities = List.◌∷◌ "*" List.[] }

unfoldable pub decide_for : (Principal → String → Bool) → Request → Source → AuthResult → Verdict
decide_for has_capability req source throws = status 500
decide_for has_capability req source refuses = status 401
decide_for has_capability req source (authenticated p) =
    elim (authorize_request has_capability p (get_required_capability req.path req.method)) [
      | outside_contract ↦ status 403
      | missing_capability ↦ status 403
      | allow ↦ next (some p) (some source)
    ]

-- The middleware; the service's `authenticate` and `hasCapability` are arguments. A token that is the
-- empty text counts as none.
unfoldable pub auth_middleware :
    Bool → Bool → (String → AuthResult) → (Principal → String → Bool) → Request → Verdict
auth_middleware use_auth enable_dev_api authenticate has_capability req =
    if is_public_endpoint req.path req.method
    then next none none
    else if not use_auth
    then next (some system_principal) none
    else elim (resolve_credential enable_dev_api req) [
      | none ↦ status 401
      | some c ↦
          if is_empty_text c.token
          then status 401
          else decide_for has_capability req c.source (authenticate c.token)
    ]
