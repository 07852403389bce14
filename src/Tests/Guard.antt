-- ===== src/Tests/Guard.antt =====
-- Requests with the session cookie: one from the dashboard, one from a sibling app.
use Prim.Native.String.{String}
use mathlib.Core.List.{[], ◌∷◌}
use hola.Prelude.{
  ◌≡◌, refl, inl, true, false, Option, none, some, str_eq, if◌then◌else◌, split, trim, trim_start,
  trim_end, is_space, after_prefix,
}
use hola.Auth.{
  Request, cookie, resolve_credential, bearer, Verdict, next, status, Principal, authenticated,
  auth_middleware, is_public_endpoint, decide_for, authorize_request, get_required_capability,
  required_by, applies, matches, after_part, principal_has_capability, is_contract_scoped,
}
use hola.OriginGuard.{
  Url, WebEngine, WebRequest, origin_guard, mutation_intent_of, judge_mutation, judge_origin,
  origin_is_trusted, media_type, configured_trusted_hosts, to_host, strip_slashes, has_scheme,
  host_of_url,
}
use hola.OriginGuard.Origins.{IsProven}
use hola.OriginGuard.Trust.{origin_guard-IsProven, others_pass}

-- A parser that knows the two hosts.
abbrev page_of : String → Option Url
page_of s =
    if str_eq s "https://hola.example.com"
    then some
        (record { protocol = "https:"; host = "hola.example.com"; hostname = "hola.example.com" })
    else if str_eq s "https://evil.example.com"
    then some
        (record { protocol = "https:"; host = "evil.example.com"; hostname = "evil.example.com" })
    else none

abbrev plain : WebEngine
plain = record { parse_url = page_of; to_lower_case = λ s. s; to_upper_case = λ s. s }

abbrev posts : Option String → Request
posts api_key = record {
  path = "/api/deployments";
  method = "POST";
  authorization = none;
  api_key = api_key;
  session_cookie = some "k1";
  query_token = none;
  query_api_key = none;
}

abbrev sent_from : Option String → String → WebRequest
sent_from api_key origin = record {
  auth = posts api_key;
  url = "http://hola.example.com/api/deployments";
  origin = some origin;
  sec_fetch_site = some "same-origin";
  host = some "hola.example.com";
  content_type = some "application/json; charset=utf-8";
}

abbrev admin : Principal
admin = record { id = "admin"; capabilities = "*" ∷ [] }

abbrev answer : Request → Verdict
answer = auth_middleware true false (λ t. authenticated admin) principal_has_capability

unfoldable guarding : Unit {0}
unfolding auth_middleware is_public_endpoint resolve_credential bearer decide_for authorize_request
    get_required_capability required_by applies matches after_prefix after_part
    principal_has_capability is_contract_scoped origin_guard mutation_intent_of judge_mutation
    judge_origin origin_is_trusted media_type configured_trusted_hosts to_host strip_slashes
    has_scheme host_of_url split trim trim_start trim_end is_space
guarding = tt

let_through :
    origin_guard plain false
      (some " https://hola.example.com/ ,")
      none
      (sent_from none "https://hola.example.com")
      (answer (posts none))
    ≡ next (some admin) (some cookie)
unfolding guarding
let_through = refl

sibling_refused :
    origin_guard plain false none
      (some "hola.example.com")
      (sent_from none "https://evil.example.com")
      (answer (posts none))
    ≡ status 403
unfolding guarding
sibling_refused = refl

by_the_cookie :
    resolve_credential false (posts none) ≡ some (record { token = "k1"; source = cookie })
unfolding guarding
by_the_cookie = refl

origin_guard-IsProven_example :
    IsProven plain (
      mutation_intent_of plain false
        (some " https://hola.example.com/ ,")
        none
        (sent_from none "https://hola.example.com"))
    × (answer (posts none) ≡ next (some admin) (some cookie))
origin_guard-IsProven_example =
    origin_guard-IsProven plain false (some " https://hola.example.com/ ,") none
      (sent_from none "https://hola.example.com") (answer (posts none))
      (record { token = "k1"; source = cookie }) (some admin) (some cookie) refl by_the_cookie refl
      let_through

held_key_passes :
    origin_guard plain false none none
      (sent_from (some "k2") "https://evil.example.com")
      (answer (posts (some "k2")))
    ≡ answer (posts (some "k2"))
unfolding guarding
held_key_passes =
    others_pass plain false none none (sent_from (some "k2") "https://evil.example.com")
      (answer (posts (some "k2"))) (inl refl)
