-- ===== src/OriginGuard.antt =====
-- packages/server/src/middleware/origin-guard.ts: which requests with the session cookie may change
-- state. The URL parser and the two case functions are arguments; an absent header is `none`.
pub mod Origins
pub mod Trust
use Prim.Native.Char.{code}
use Prim.Native.String.{String, [], ◌∷◌}
use mathlib.Core.List
use mathlib.Core.List.{List, ◌++◌}
use hola.Prelude.{
  ℕ, Bool, true, false, not, ◌&&◌, ◌||◌, Option, none, some, if◌then◌else◌, ◌==◌, str_eq, includes,
  any, is_empty_text, split, value_or, or_else, trim, after_prefix, is_some,
}
use hola.Auth.{Credential, Source, cookie, Request, resolve_credential, truthy, Verdict, status}

-- What the engine gives: `new URL(s)`, or `none` where it throws, and the two case functions.
pub record Url : Type 0 where
  pub protocol : String
  pub host : String
  pub hostname : String

pub record WebEngine : Type 0 where
  pub parse_url : String → Option Url
  pub to_lower_case : String → String
  pub to_upper_case : String → String

abbrev pub mutating_methods : List String
mutating_methods = List.◌∷◌ "POST" (List.◌∷◌ "PUT" (List.◌∷◌ "PATCH" (List.◌∷◌ "DELETE" List.[])))

abbrev pub accepted_mutation_media_types : List String
accepted_mutation_media_types = List.◌∷◌ "application/json" (List.◌∷◌ "multipart/form-data" List.[])

abbrev pub same_origin_fetch_sites : List String
same_origin_fetch_sites = List.◌∷◌ "same-origin" (List.◌∷◌ "none" List.[])

pub data MutationDecision : Type 0 where
  allow untrusted_origin missing_origin unsupported_media_type : MutationDecision

pub record MutationIntent : Type 0 where
  pub method : String
  pub credential_source : Option Source
  pub origin : Option String
  pub sec_fetch_site : Option String
  pub host : Option String
  pub content_type : Option String
  pub trusted_hosts : List String

-- The headers that the guard reads, beside those of the authentication.
pub record WebRequest : Type 0 where
  pub auth : Request
  pub url : String
  pub origin : Option String
  pub sec_fetch_site : Option String
  pub host : Option String
  pub content_type : Option String

-- `s.replace(/\/+$/, '')`
unfoldable pub strip_slashes : String → String
strip_slashes [] = []
strip_slashes (c ∷ s) =
    let rest = strip_slashes s in if is_empty_text rest && code c == b'/' then [] else c ∷ rest

-- `s.includes('://')`
unfoldable pub has_scheme : String → Bool
has_scheme [] = false
has_scheme (c ∷ s) = is_some (after_prefix "://" (c ∷ s)) || has_scheme s

-- The URL's host, `none` where it is empty or the text does not parse.
abbrev host_in : Option Url → Option String
host_in none = none
host_in (some u) = truthy (some u.host)

module _ (engine : WebEngine) where
  unfoldable pub host_of_url : String → Option String
  host_of_url url = host_in (engine.parse_url url)

  unfoldable pub to_host : String → Option String
  to_host value =
      let trimmed = strip_slashes (trim value) in
      if is_empty_text trimmed
      then none
      else if has_scheme trimmed
      then host_of_url trimmed
      else some trimmed

  abbrev hosts_in : List String → List String
  hosts_in List.[] = List.[]
  hosts_in (List.◌∷◌ raw rest) = elim (to_host raw) [
    | none ↦ hosts_in rest
    | some host ↦ List.◌∷◌ host (hosts_in rest)
  ]

  -- `HOLA_TRUSTED_ORIGINS` and `HOLA_DOMAIN`
  unfoldable pub configured_trusted_hosts : Option String → Option String → List String
  configured_trusted_hosts trusted_origins domain =
      hosts_in (split b',' (value_or trusted_origins ""))
      ++ hosts_in (List.◌∷◌ (value_or domain "") List.[])

  abbrev pub candidates : Option String → List String → List String
  candidates host trusted_hosts = elim (truthy host) [
    | none ↦ trusted_hosts
    | some h ↦ trusted_hosts ++ List.◌∷◌ h List.[]
  ]

  abbrev pub is_web : Url → Bool
  is_web u = str_eq u.protocol "http:" || str_eq u.protocol "https:"

  abbrev pub names : Url → String → Bool
  names u trusted = str_eq u.host trusted || str_eq u.hostname trusted

  abbrev pub url_is_trusted : Option Url → List String → Bool
  url_is_trusted none hosts = false
  url_is_trusted (some u) hosts = is_web u && any (names u) hosts

  unfoldable pub origin_is_trusted : String → Option String → List String → Bool
  origin_is_trusted origin host trusted_hosts =
      url_is_trusted (engine.parse_url origin) (candidates host trusted_hosts)

  abbrev pub first_part : List String → String
  first_part List.[] = ""
  first_part (List.◌∷◌ part parts) = part

  unfoldable pub media_type : String → String
  media_type content_type = engine.to_lower_case (trim (first_part (split b';' content_type)))

  -- A `Sec-Fetch-Site` that names another site; an absent or blank one does not.
  abbrev pub is_foreign_site : Option String → Bool
  is_foreign_site none = false
  is_foreign_site (some s) =
      let site = engine.to_lower_case (trim s) in
      not (is_empty_text site) && not (includes same_origin_fetch_sites site)

  abbrev pub is_unsupported : Option String → Bool
  is_unsupported content_type = elim (truthy content_type) [
    | none ↦ false
    | some c ↦ not (includes accepted_mutation_media_types (media_type c))
  ]

  abbrev pub is_cookie : Option Source → Bool
  is_cookie none = false
  is_cookie (some source) = elim source [ cookie ↦ true | _ ↦ false ]

  unfoldable pub judge_origin : MutationIntent → Option String → MutationDecision
  judge_origin intent none = missing_origin
  judge_origin intent (some origin) =
      if not (origin_is_trusted origin intent.host intent.trusted_hosts)
      then untrusted_origin
      else if is_unsupported intent.content_type
      then unsupported_media_type
      else allow

  unfoldable pub judge_mutation : MutationIntent → MutationDecision
  judge_mutation intent =
      if not (includes mutating_methods (engine.to_upper_case intent.method))
      then allow
      else if not (is_cookie intent.credential_source)
      then allow
      else if is_foreign_site intent.sec_fetch_site
      then untrusted_origin
      else judge_origin intent (truthy intent.origin)

  abbrev pub source_of : Option Credential → Option Source
  source_of none = none
  source_of (some c) = some c.source

  unfoldable pub mutation_intent_of :
      Bool → Option String → Option String → WebRequest → MutationIntent
  mutation_intent_of enable_dev_api trusted_origins domain req = record {
    method = req.auth.method;
    credential_source = source_of (resolve_credential enable_dev_api req.auth);
    origin = req.origin;
    sec_fetch_site = req.sec_fetch_site;
    host = or_else req.host (host_of_url req.url);
    content_type = req.content_type;
    trusted_hosts = configured_trusted_hosts trusted_origins domain;
  }

  abbrev pub refuse : MutationDecision → Verdict → Verdict
  refuse allow answer = answer
  refuse unsupported_media_type answer = status 415
  refuse missing_origin answer = status 403
  refuse untrusted_origin answer = status 403

  -- The middleware around the next one's answer.
  unfoldable pub origin_guard :
      Bool → Option String → Option String → WebRequest → Verdict → Verdict
  origin_guard enable_dev_api trusted_origins domain req answer =
      refuse (judge_mutation (mutation_intent_of enable_dev_api trusted_origins domain req)) answer
